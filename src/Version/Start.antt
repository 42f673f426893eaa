-- ===== src/Version/Start.antt =====
-- `Start` of controllers/java/version/versioner.go and the loop that it runs.
use snk_fork_dolphin.Base.{ℕ, zero, suc, ◌≡◌, refl, arith, Bool, none, some, if◌then◌else◌}
use snk_fork_dolphin.Version.{Managers, watch_version_info, start_loop}

watch_version_info-none : (fuel : ℕ) (ms : Managers) → watch_version_info fuel ms ≡ none
unfolding watch_version_info
watch_version_info-none zero ms = refl
watch_version_info-none (suc fuel) ms = watch_version_info-none fuel ms

-- The loop that `Start` runs never handles an event: whatever the fuel, it leaves the managers as
-- they are where the context has ended, and else its first call of `watchVersionInfo` does not
-- return.
start_loop-stuck :
    (ended : ℕ → Bool) (fuel round : ℕ) (ms : Managers)
    → start_loop ended (suc fuel) round ms ≡ (if ended round then some ms else none)
unfolding start_loop
start_loop-stuck ended fuel round ms = ground (arith, watch_version_info-none fuel ms)
