-- ===== src/Replica/Update/Loop.antt =====
-- What the loop of `updateInstances` keeps true (controllers/scheduler/replica.go).
use snk_fork_dolphin.Base.{
  ℕ, ◌+◌, ◌≡◌, ◌⊎◌, ◌∙◌, refl, arith, ◌++◌, Bool, true, false, [], ◌∷◌, none, some, if◌then◌else◌,
  Bool-cases, Option-cases, inl, inr, length,
}
use snk_fork_dolphin.Base.Int.{ℤ, pos, ◌+ℤ◌, ◌≤ℤ◌, int_laws, parts_of_eq, +ℤ_parts, leb_ℤ}
use snk_fork_dolphin.Base.Text.{Text}
use snk_fork_dolphin.Base.Table.{Table, lookup, lookup-insert}
use snk_fork_dolphin.Base.Total.{IsDistinct, total, total-insert-some}
use snk_fork_dolphin.HostConfig.{Store, HcManager, key_map, set_host_config}
use snk_fork_dolphin.HostConfig.Tables.{key_map-set_self}
use snk_fork_dolphin.Types.Deploy.{DeploySpec}
use snk_fork_dolphin.Types.Fault.{Errors, cancelled}
use snk_fork_dolphin.Replica.{entries}
use snk_fork_dolphin.Replica.Stat.{expected_of, unexpected_of, IsProper, insert-IsProper}
use snk_fork_dolphin.Replica.Legacy.Lookup.{Agrees, Agrees-other}
use snk_fork_dolphin.Replica.Update.{exchanged, find_other, up_to_date, update_hosts}
use snk_fork_dolphin.Replica.Update.Move.{exchanged_counts, exchanged-IsDistinct}

-- `n` instances are exchanged between `t` and `t'`, counted from `count` on: `more` of them at
-- most, and up to `num`.
pub record Exchanges (expect : Text) (t t' : Table DeploySpec) (count n num : ℤ) (more : ℕ)
    : Type 0 where
  pub proper : IsProper t'
  pub gained : total (expected_of expect) t' +ℤ count ≡ total (expected_of expect) t +ℤ n
  pub lost : total (unexpected_of expect) t' +ℤ n ≡ total (unexpected_of expect) t +ℤ count
  pub counted : count ≤ℤ n
  pub within : n ≤ℤ num
  pub one_each : n ≤ℤ count +ℤ pos more

module _ (D : Store) (key expect : Text) (ended : ℕ → Bool) (num : ℤ) where
  abbrev pub Good : Table DeploySpec → ℤ → HcManager D → HcManager D × ℤ × Errors → Type 0
  Good hc count m r =
      Exchanges expect (key_map D key m) (key_map D key r.0) count r.1 num (length hc)

  -- The table after one host's exchange.
  abbrev pub exchange : Text → DeploySpec → Text → ℤ → HcManager D → HcManager D × Errors
  exchange h cfg ver n m =
      set_host_config D key h (record { info = some (exchanged expect ver n (entries cfg)) }) m

  Good-skip :
      (hc : Table DeploySpec) (h : Text) (cfg : DeploySpec) (count : ℤ) (m : HcManager D)
      (r : HcManager D × ℤ × Errors)
      → Good hc count m r
      → Good ((h, cfg) ∷ hc) count m r
  Good-skip hc h cfg count m r g = record {
    proper = g.proper;
    gained = g.gained;
    lost = g.lost;
    counted = g.counted;
    within = g.within;
    one_each = omega (int_laws, g.one_each);
  }

  Good-full :
      (hc : Table DeploySpec) (count : ℤ) (m : HcManager D)
      → IsProper (key_map D key m)
      → count ≤ℤ num
      → leb_ℤ num count ≡ true
      → Good hc count m (m, num, [])
  Good-full hc count m p le full =
      let same : num ≡ count = ground arith in
      record {
        proper = p;
        gained = omega (int_laws, parts_of_eq same);
        lost = omega (int_laws, parts_of_eq same);
        counted = le;
        within = omega arith;
        one_each = omega (int_laws, parts_of_eq same);
      }

  module _ (h : Text) (cfg : DeploySpec) (ver : Text) (n : ℤ) (m : HcManager D) where
    Good-exchange :
        (hc : Table DeploySpec) (count : ℤ) (r : HcManager D × ℤ × Errors)
        → IsProper (key_map D key m)
        → lookup h (key_map D key m) ≡ some cfg
        → find_other expect (entries cfg) ≡ some (ver, n)
        → Good hc (count +ℤ pos 1) (exchange h cfg ver n m).0 r
        → Good ((h, cfg) ∷ hc) count m r
    Good-exchange hc count r p e found g =
        let t = key_map D key m in
        let info = exchanged expect ver n (entries cfg) in
        let spec : DeploySpec = record { info = some info } in
        let moved = exchanged_counts expect ver n (entries cfg) (p.versions h cfg e) found in
        let up = total-insert-some (expected_of expect) h spec t e in
        let down = total-insert-some (unexpected_of expect) h spec t e in
        let gained' = rw key_map-set_self at g.gained in
        let lost' = rw key_map-set_self at g.lost in
        record {
          proper = g.proper;
          gained = omega (int_laws, parts_of_eq gained', parts_of_eq up, parts_of_eq moved.0);
          lost = omega (int_laws, parts_of_eq lost', parts_of_eq down, parts_of_eq moved.1);
          counted = omega (int_laws, g.counted);
          within = g.within;
          one_each = omega (int_laws, g.one_each);
        }

  pub Good-done :
      (hc : Table DeploySpec) (count : ℤ) (m : HcManager D) (errors : Errors)
      → IsProper (key_map D key m)
      → count ≤ℤ num
      → Good hc count m (m, count, errors)
  Good-done hc count m errors p le = record {
    proper = p;
    gained = refl;
    lost = refl;
    counted = omega arith;
    within = le;
    one_each = omega int_laws;
  }

  -- What follows one exchange keeps the invariant, if the rest of the loop does.
  Good-next :
      (hc : Table DeploySpec) (h : Text) (cfg : DeploySpec) (ver : Text) (n count : ℤ)
      (merr stopped : Errors) (wait : ℕ) (m : HcManager D)
      → let m' = (exchange h cfg ver n m).0 in
        let next = update_hosts D key expect ended num hc (count +ℤ pos 1) merr (wait + 1) m' in
        IsProper (key_map D key m)
        → lookup h (key_map D key m) ≡ some cfg
        → find_other expect (entries cfg) ≡ some (ver, n)
        → (count +ℤ pos 1) ≤ℤ num
        → IsProper (key_map D key m')
        → Good hc (count +ℤ pos 1) m' next
        → Good ((h, cfg) ∷ hc) count m (if ended wait then (m', count +ℤ pos 1, stopped) else next)
  Good-next hc h cfg ver n count merr stopped wait m p e found le p' g =
      let m' = (exchange h cfg ver n m).0 in
      let next = update_hosts D key expect ended num hc (count +ℤ pos 1) merr (wait + 1) m' in
      elim (Bool-cases (ended wait)) [
        | inl stop ↦ rw stop (
            Good-exchange h cfg ver n m hc count (m', count +ℤ pos 1, stopped) p e found
              (Good-done hc (count +ℤ pos 1) m' stopped p' le))
        | inr go ↦ rw go (Good-exchange h cfg ver n m hc count next p e found g)
      ]

  pub update_hosts-skip :
      (hc : Table DeploySpec) (h : Text) (cfg : DeploySpec) (count : ℤ) (merr : Errors) (wait : ℕ)
      (m : HcManager D)
      → (up_to_date expect (entries cfg) ≡ true) ⊎ (find_other expect (entries cfg) ≡ none)
      → update_hosts D key expect ended num ((h, cfg) ∷ hc) count merr wait m
        ≡ update_hosts D key expect ended num hc count merr wait m
  unfolding update_hosts
  update_hosts-skip hc h cfg count merr wait m (inl e) = ground arith
  update_hosts-skip hc h cfg count merr wait m (inr e) = ground arith

  pub update_hosts-act :
      (hc : Table DeploySpec) (h : Text) (cfg : DeploySpec) (count : ℤ) (merr : Errors) (wait : ℕ)
      (m : HcManager D) (ver : Text) (n : ℤ)
      → up_to_date expect (entries cfg) ≡ false
      → find_other expect (entries cfg) ≡ some (ver, n)
      → let (m', errors) = exchange h cfg ver n m in
        update_hosts D key expect ended num ((h, cfg) ∷ hc) count merr wait m ≡ (
          if leb_ℤ num count
          then (m, num, [])
          else if ended wait
          then (m', count +ℤ pos 1, merr ++ (errors ++ cancelled ∷ []))
          else update_hosts D key expect ended num hc
              (count +ℤ pos 1)
              (merr ++ errors)
              (wait + 1)
              m')
  unfolding update_hosts
  update_hosts-act hc h cfg count merr wait m ver n stale found = ground arith

  exchange-IsProper :
      (h : Text) (cfg : DeploySpec) (ver : Text) (n : ℤ) (m : HcManager D)
      → IsProper (key_map D key m)
      → lookup h (key_map D key m) ≡ some cfg
      → IsProper (key_map D key (exchange h cfg ver n m).0)
  exchange-IsProper h cfg ver n m p e = rw key_map-set_self (
      insert-IsProper h (exchanged expect ver n (entries cfg)) (key_map D key m)
        (exchanged-IsDistinct expect ver n (entries cfg) (p.versions h cfg e)) p)

  exchange-Agrees :
      (hc : Table DeploySpec) (h : Text) (cfg : DeploySpec) (ver : Text) (n : ℤ) (m : HcManager D)
      → lookup h hc ≡ none
      → Agrees hc (key_map D key m)
      → Agrees hc (key_map D key (exchange h cfg ver n m).0)
  exchange-Agrees hc h cfg ver n m absent a = rw key_map-set_self (
      Agrees-other h hc (key_map D key m) _ absent
        (λ i ne. lookup-insert h i _ (key_map D key m) ∙ rw ne) a)

  pub update_hosts-Good :
      (hc : Table DeploySpec) (count : ℤ) (merr : Errors) (wait : ℕ) (m : HcManager D)
      → IsDistinct hc
      → Agrees hc (key_map D key m)
      → IsProper (key_map D key m)
      → count ≤ℤ num
      → Good hc count m (update_hosts D key expect ended num hc count merr wait m)
  update_hosts-Good [] count merr wait m d a p le =
      unfold update_hosts in (Good-done [] count m merr p le)
  update_hosts-Good ((h, cfg) ∷ hc) count merr wait m d a p le =
      let skipped =
        Good-skip hc h cfg count m (update_hosts D key expect ended num hc count merr wait m)
          (update_hosts-Good hc count merr wait m d.1 a.1 p le) in
      elim (Bool-cases (up_to_date expect (entries cfg))) [
        | inl fresh ↦ rw (update_hosts-skip hc h cfg count merr wait m (inl fresh)) skipped
        | inr stale ↦ elim (Option-cases (find_other expect (entries cfg))) [
          | inl none_there ↦
              rw (update_hosts-skip hc h cfg count merr wait m (inr none_there)) skipped
          | inr ((ver, n), found) ↦
              rw (update_hosts-act hc h cfg count merr wait m ver n stale found)
                (elim (Bool-cases (leb_ℤ num count)) [
                  | inl full ↦ rw full (Good-full ((h, cfg) ∷ hc) count m p le full)
                  | inr room ↦
                      let (m', errors) = exchange h cfg ver n m in
                      let p' = exchange-IsProper h cfg ver n m p a.0 in
                      let a' = exchange-Agrees hc h cfg ver n m d.0 a.1 in
                      let le' : (count +ℤ pos 1) ≤ℤ num = ground (arith, +ℤ_parts count (pos 1)) in
                      rw room (
                        Good-next hc h cfg ver n count (merr ++ errors) _ wait m p a.0 found le' p'
                          (update_hosts-Good hc (count +ℤ pos 1) (merr ++ errors) (wait + 1) m' d.1
                            a' p' le'))
                ])
        ]
      ]
