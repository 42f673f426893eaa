-- ===== src/Types/Answer.antt =====
-- What a probe of we.com/jiabiao/common/probe answers: `probe.Result`.
pub data ProbeAnswer : Type 0 where
  success warning failure unknown : ProbeAnswer
