-- ===== src/Hostinfo/Addresses.antt =====
-- The choice of an address in types/hostinfo/info.go.
use snk_fork_dolphin.Base.{
  ◌≡◌, refl, Bool, false, List, [], ◌∷◌, Option, none, some, Option-cases, inl, inr, arith,
  if◌then◌else◌, is_empty, All,
}
use snk_fork_dolphin.Base.Outcome.{done, panicked}
use snk_fork_dolphin.Base.Table.{Table}
use snk_fork_dolphin.Base.Text.{Text}
use snk_fork_dolphin.Hostinfo.{match_ips, get_host_ip_config}
use snk_fork_dolphin.Types.Fault.{Errors, no_ip, several_ips}

-- The addresses that the expression matches.
abbrev pub matched : (Text → Bool) → Table Text → List Text
matched matches [] = []
matched matches ((_, v) ∷ ips) = if matches v then v ∷ matched matches ips else matched matches ips

-- What is to come of them: exactly one address, or an error.
abbrev pub only : List Text → Text × Errors
only [] = ([], no_ip ∷ [])
only (v ∷ []) = (v, [])
only (v ∷ w ∷ vs) = ([], several_ips ∷ [])

abbrev IsFilled : Text × Text → Type 0
IsFilled e = is_empty e.1 ≡ false

match_ips-taken :
    (matches : Text → Bool) (ips : Table Text) (ip : Text)
    → is_empty ip ≡ false
    → match_ips matches ips ip ≡ only (ip ∷ matched matches ips)
unfolding match_ips
match_ips-taken matches [] ip filled = rw filled refl
match_ips-taken matches ((n, v) ∷ ips) ip filled =
    ground (arith, match_ips-taken matches ips ip filled)

match_ips-none :
    (matches : Text → Bool) (ips : Table Text)
    → All IsFilled ips
    → match_ips matches ips [] ≡ only (matched matches ips)
unfolding match_ips
match_ips-none matches [] h = refl
match_ips-none matches ((n, v) ∷ ips) h =
    ground (arith, match_ips-none matches ips h.1, match_ips-taken matches ips v h.0)

-- With an expression that compiles the address is chosen that matches it, without an error, exactly
-- if there is one and no other; otherwise the answer is empty, with the error that none or that
-- several match. An expression that does not compile panics. No address is empty.
pub get_host_ip_config-only :
    (compile : Text → Option (Text → Bool)) (ips : Table Text) (ip_regexp : Text) (nics : List Text)
    → All (λ e. is_empty e.1 ≡ false) ips
    → is_empty ip_regexp ≡ false
    → get_host_ip_config compile ips ip_regexp nics ≡ elim (compile ip_regexp) [
      | none ↦ panicked
      | some matches ↦ done (only (matched matches ips))
    ]
unfolding get_host_ip_config
get_host_ip_config-only compile ips ip_regexp nics h filled =
    elim (Option-cases (compile ip_regexp)) [
      | inl wrong ↦ ground (arith, filled, wrong)
      | inr (matches, compiles) ↦ ground (arith, filled, compiles, match_ips-none matches ips h)
    ]
