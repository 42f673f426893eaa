-- ===== src/Replica/Update/Move.antt =====
-- One exchange in a specification: one instance more of the expected version, one fewer of another.
-- The code is in controllers/scheduler/replica.go.
use snk_fork_dolphin.Base.{
  ◌≡◌, ◌∙◌, arith, false, [], ◌∷◌, some, Bool-cases, Option-cases, inl, inr,
}
use snk_fork_dolphin.Base.Int.{ℤ, pos, ◌+ℤ◌, ◌-ℤ◌, int_laws, parts_of_eq, eqb_ℤ, eqb_ℤ_iff}
use snk_fork_dolphin.Base.Text.{Text, text_eq, text_eq_iff}
use snk_fork_dolphin.Base.Table.{
  Table, lookup, insert, lookup-insert, lookup-delete, lookup-insert_self,
}
use snk_fork_dolphin.Base.Total.{
  IsDistinct, total, at, total-insert, total-insert-some, total-delete-some, insert-IsDistinct,
  delete-IsDistinct,
}
use snk_fork_dolphin.Replica.Stat.{expected, unexpected, expected-lookup}
use snk_fork_dolphin.Replica.Update.{exchanged, find_other, count_at}

-- The sum over all versions.
abbrev all_of : Table ℤ → ℤ
all_of = total (λ n. n)

all_of-split :
    (ver : Text) (info : Table ℤ) → all_of info ≡ expected ver info +ℤ unexpected ver info
unfolding total
all_of-split ver [] = omega int_laws
all_of-split ver ((v, n) ∷ info) = elim (Bool-cases (text_eq v ver)) [
  | inl same ↦ rw same (omega (int_laws, parts_of_eq (all_of-split ver info)))
  | inr other ↦ rw other (omega (int_laws, parts_of_eq (all_of-split ver info)))
]

lookup-find_other :
    (expect ver : Text) (n : ℤ) (info : Table ℤ)
    → find_other expect info ≡ some (ver, n)
    → (lookup ver info ≡ some n) × (text_eq expect ver ≡ false)
unfolding find_other lookup
lookup-find_other expect ver n [] e = cc
lookup-find_other expect ver n ((v, k) ∷ info) e = ground (
  arith,
  lookup-find_other expect ver n info,
  text_eq_iff v expect,
  text_eq_iff expect ver,
  text_eq_iff v ver,
)

count_at-at : (k : Text) (info : Table ℤ) → count_at k info ≡ at (λ n. n) (lookup k info)
count_at-at k info = elim (Option-cases (lookup k info)) [
  | inl absent ↦ ground arith
  | inr (c, present) ↦ ground arith
]

-- The map with one instance more of the expected version.
module _ (expect : Text) (info : Table ℤ) where
  unfoldable pub bumped : Table ℤ
  bumped = insert expect (count_at expect info +ℤ pos 1) info

  all_of-bumped : all_of bumped ≡ all_of info +ℤ pos 1
  unfolding bumped
  all_of-bumped = omega (
    int_laws,
    parts_of_eq (count_at-at expect info),
    parts_of_eq (total-insert (λ (k : ℤ). k) expect (count_at expect info +ℤ pos 1) info),
  )

  pub bumped-IsDistinct : IsDistinct info → IsDistinct bumped
  unfolding bumped
  bumped-IsDistinct d = insert-IsDistinct expect (count_at expect info +ℤ pos 1) info d

  -- One instance more of the expected version, and as many as before of the others.
  pub bumped_counts :
      IsDistinct info
      → (expected expect bumped ≡ expected expect info +ℤ pos 1)
        × (unexpected expect bumped ≡ unexpected expect info)
  bumped_counts d =
      let there : lookup expect bumped ≡ some (count_at expect info +ℤ pos 1) =
        unfold bumped in lookup-insert_self expect (count_at expect info +ℤ pos 1) info in
      let up : expected expect bumped ≡ expected expect info +ℤ pos 1 =
        expected-lookup expect bumped (bumped-IsDistinct d)
        ∙ rw there (
            omega (
              int_laws,
              parts_of_eq (count_at-at expect info),
              parts_of_eq (expected-lookup expect info d),
            )) in
      (
        up,
        omega (
          int_laws,
          parts_of_eq up,
          parts_of_eq all_of-bumped,
          parts_of_eq (all_of-split expect info),
          parts_of_eq (all_of-split expect bumped),
        ),
      )

module _ (expect ver : Text) (n : ℤ) (info : Table ℤ) where
  lookup-bumped :
      text_eq expect ver ≡ false
      → lookup ver info ≡ some n
      → lookup ver (bumped expect info) ≡ some n
  unfolding bumped
  lookup-bumped ne e = ground (arith, lookup-insert expect ver (count_at expect info +ℤ pos 1) info)

  lookup-exchanged :
      text_eq expect ver ≡ false
      → lookup expect (exchanged expect ver n info) ≡ some (count_at expect info +ℤ pos 1)
  unfolding exchanged
  lookup-exchanged ne =
      let info' = insert expect (count_at expect info +ℤ pos 1) info in
      ground (
        arith,
        lookup-insert expect expect (count_at expect info +ℤ pos 1) info,
        lookup-insert ver expect (n -ℤ pos 1) info',
        lookup-delete ver expect info',
        text_eq_iff expect expect,
        text_eq_iff ver expect,
        text_eq_iff expect ver,
      )

  pub exchanged-IsDistinct : IsDistinct info → IsDistinct (exchanged expect ver n info)
  unfolding exchanged
  exchanged-IsDistinct d =
      let info' = insert expect (count_at expect info +ℤ pos 1) info in
      let d' = insert-IsDistinct expect (count_at expect info +ℤ pos 1) info d in
      ground (arith, delete-IsDistinct ver info' d', insert-IsDistinct ver (n -ℤ pos 1) info' d')

  all_of-exchanged :
      IsDistinct info
      → text_eq expect ver ≡ false
      → lookup ver info ≡ some n
      → all_of (exchanged expect ver n info) ≡ all_of info
  unfolding exchanged bumped
  all_of-exchanged d ne e =
      let d' = insert-IsDistinct expect (count_at expect info +ℤ pos 1) info d in
      let less = n -ℤ pos 1 in
      elim (Bool-cases (eqb_ℤ less (pos 0))) [
        | inl last ↦ rw last (
            omega (
              int_laws,
              parts_of_eq (all_of-bumped expect info),
              parts_of_eq ((eqb_ℤ_iff less (pos 0)).0 last),
              parts_of_eq (
                  total-delete-some (λ (k : ℤ). k) ver (bumped expect info) d'
                    (lookup-bumped ne e)),
            ))
        | inr more ↦ rw more (
            omega (
              int_laws,
              parts_of_eq (all_of-bumped expect info),
              parts_of_eq (
                  total-insert-some (λ (k : ℤ). k) ver less (bumped expect info)
                    (lookup-bumped ne e)),
            ))
      ]

  -- An exchange makes one instance more of the expected version and one fewer of the others.
  pub exchanged_counts :
      IsDistinct info
      → find_other expect info ≡ some (ver, n)
      → (expected expect (exchanged expect ver n info) ≡ expected expect info +ℤ pos 1)
        × (unexpected expect (exchanged expect ver n info) +ℤ pos 1 ≡ unexpected expect info)
  exchanged_counts d found =
      let (e, ne) = lookup-find_other expect ver n info found in
      let after = expected-lookup expect (exchanged expect ver n info) (exchanged-IsDistinct d) in
      let up : expected expect (exchanged expect ver n info) ≡ expected expect info +ℤ pos 1 =
        after
        ∙ rw (lookup-exchanged ne) (
            omega (
              int_laws,
              parts_of_eq (count_at-at expect info),
              parts_of_eq (expected-lookup expect info d),
            )) in
      (
        up,
        omega (
          int_laws,
          parts_of_eq up,
          parts_of_eq (all_of-exchanged d ne e),
          parts_of_eq (all_of-split expect info),
          parts_of_eq (all_of-split expect (exchanged expect ver n info)),
        ),
      )
