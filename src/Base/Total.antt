-- ===== src/Base/Total.antt =====
-- Sums of integers over a table, and tables that hold each key once.
use mathlib.Core.Path.{◌≡◌, refl, sym, ◌∙◌}
use mathlib.Core.Logic.{inl, inr}
use mathlib.Core.List.{[], ◌∷◌}
use mathlib.Core.Option.{Option, none, some}
use native.Mathlib.Omega.{arith}
use snk_fork_dolphin.Base.Tests.{Bool-cases}
use snk_fork_dolphin.Base.Int.{ℤ, pos, ◌+ℤ◌, +ℤ-zero, int_laws, parts_of_eq}
use snk_fork_dolphin.Base.Text.{Text, text_eq, text_eq_iff}
use snk_fork_dolphin.Base.Table.{Table, lookup, insert, delete, lookup-insert, lookup-delete}

module _ {V : Type 0} where
  unfoldable pub total : (V → ℤ) → Table V → ℤ
  total f [] = pos 0
  total f ((k, v) ∷ m) = f v +ℤ total f m

  -- As in a Go map, no key stands twice.
  abbrev pub IsDistinct : Table V → Type 0
  IsDistinct [] = Unit
  IsDistinct ((k, v) ∷ m) = (lookup k m ≡ none) × IsDistinct m

  pub insert-IsDistinct :
      (k : Text) (v : V) (m : Table V) → IsDistinct m → IsDistinct (insert k v m)
  unfolding insert lookup
  insert-IsDistinct k v [] d = ground arith
  insert-IsDistinct k v ((j, w) ∷ m) d =
      ground (
        arith,
        insert-IsDistinct k v m d.1,
        lookup-insert k j v m,
        text_eq_iff j k,
        text_eq_iff k j,
      )

  pub delete-IsDistinct : (k : Text) (m : Table V) → IsDistinct m → IsDistinct (delete k m)
  unfolding delete
  delete-IsDistinct k [] d = d
  delete-IsDistinct k ((j, w) ∷ m) d =
      ground (arith, delete-IsDistinct k m d.1, lookup-delete k j m)

  delete_absent : (k : Text) (m : Table V) → lookup k m ≡ none → delete k m ≡ m
  unfolding delete lookup
  delete_absent k [] e = refl
  delete_absent k ((j, w) ∷ m) e = ground (arith, delete_absent k m)

  -- The value at a key, or the summand 0.
  abbrev pub at : (V → ℤ) → Option V → ℤ
  at f none = pos 0
  at f (some v) = f v

  -- A write changes the sum by the difference at its key.
  pub total-insert :
      (f : V → ℤ) (k : Text) (v : V) (m : Table V)
      → total f (insert k v m) +ℤ at f (lookup k m) ≡ total f m +ℤ f v
  unfolding total insert lookup
  total-insert f k v [] = omega int_laws
  total-insert f k v ((j, w) ∷ m) = elim (Bool-cases (text_eq j k)) [
    | inl same ↦ rw same (omega int_laws)
    | inr other ↦ rw other (omega (int_laws, parts_of_eq (total-insert f k v m)))
  ]

  pub total-delete :
      (f : V → ℤ) (k : Text) (m : Table V)
      → IsDistinct m
      → total f (delete k m) +ℤ at f (lookup k m) ≡ total f m
  unfolding total delete lookup
  total-delete f k [] d = omega int_laws
  total-delete f k ((j, w) ∷ m) d = elim (Bool-cases (text_eq j k)) [
    | inl same ↦
        rw same (rw (delete_absent k m (cc ((text_eq_iff j k).0 same, d.0))) (omega int_laws))
    | inr other ↦ rw other (omega (int_laws, parts_of_eq (total-delete f k m d.1)))
  ]

  pub total-insert-some :
      (f : V → ℤ) (k : Text) (v : V) (m : Table V) {w : V}
      → lookup k m ≡ some w
      → total f (insert k v m) +ℤ f w ≡ total f m +ℤ f v
  total-insert-some f k v m e = rw e at (total-insert f k v m)

  pub total-insert-none :
      (f : V → ℤ) (k : Text) (v : V) (m : Table V)
      → lookup k m ≡ none
      → total f (insert k v m) ≡ total f m +ℤ f v
  total-insert-none f k v m e = sym (+ℤ-zero _) ∙ rw e at (total-insert f k v m)

  pub total-delete-some :
      (f : V → ℤ) (k : Text) (m : Table V) {w : V}
      → IsDistinct m
      → lookup k m ≡ some w
      → total f (delete k m) +ℤ f w ≡ total f m
  total-delete-some f k m d e = rw e at (total-delete f k m d)
