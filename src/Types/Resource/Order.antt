-- ===== src/Types/Resource/Order.antt =====
-- The order on resources, and what `Subtract` and `Devide` mean in it (types/resource.go).
use snk_fork_dolphin.Base.{ℕ, zero, suc, ◌+◌, ◌*◌, ◌/◌, ◌≤◌, ◌<◌, ◌≡◌, ◌↔◌, refl, arith}
use native.Mathlib.Numerals.{unary_clauses}
use snk_fork_dolphin.Base.Int.{pos, ◌≤ℤ◌}
use snk_fork_dolphin.Types.Resource.{DeployResource, subtract, lower, smallest, devide}

-- Every one of the five quantities of `need` is there in `have`.
pub record Fits (need have : DeployResource) : Type 0 where
  pub memory_fits : need.memory ≤ have.memory
  pub cpu_fits : need.cpu ≤ have.cpu
  pub in_fits : need.network_in ≤ have.network_in
  pub out_fits : need.network_out ≤ have.network_out
  pub disk_fits : need.disk_space ≤ have.disk_space

-- `n` times the five quantities, with no wrap-around.
abbrev pub times : ℕ → DeployResource → DeployResource
times n r = record r {
  memory = n * r.memory;
  cpu = n * r.cpu;
  network_in = n * r.network_in;
  network_out = n * r.network_out;
  disk_space = n * r.disk_space;
}

le-div_iff : (n a d : ℕ) → (n ≤ a / suc d) ↔ (n * suc d ≤ a)
le-div_iff n a d = (λ h. grind arith, λ h. grind arith)

le-lower_iff : (n m a d : ℕ) → (n ≤ lower m a d) ↔ ((n ≤ m) × (n * d ≤ a))
unfolding lower
le-lower_iff n m a zero = (λ h. (h, omega arith), λ h. h.0)
le-lower_iff n m a (suc d) =
    (λ h. ground (arith, le-div_iff n a d), λ h. ground (arith, le-div_iff n a d))

le-smallest_iff :
    (n : ℕ) (dr operand : DeployResource)
    → (n ≤ smallest dr operand) ↔ ((n ≤ operand.memory) × Fits (times n operand) dr)
unfolding smallest
le-smallest_iff n dr operand =
    let m0 = operand.memory in
    let m1 = lower m0 dr.memory operand.memory in
    let m2 = lower m1 dr.cpu operand.cpu in
    let m3 = lower m2 dr.disk_space operand.disk_space in
    let m4 = lower m3 dr.network_in operand.network_in in
    let e1 = le-lower_iff n m0 dr.memory operand.memory in
    let e2 = le-lower_iff n m1 dr.cpu operand.cpu in
    let e3 = le-lower_iff n m2 dr.disk_space operand.disk_space in
    let e4 = le-lower_iff n m3 dr.network_in operand.network_in in
    let e5 = le-lower_iff n m4 dr.network_out operand.network_out in
    (
      λ h.
          let h5 = e5.0 h in
          let h4 = e4.0 h5.0 in
          let h3 = e3.0 h4.0 in
          let h2 = e2.0 h3.0 in
          let h1 = e1.0 h2.0 in
          (
            h1.0,
            record {
              memory_fits = h1.1;
              cpu_fits = h2.1;
              in_fits = h4.1;
              out_fits = h5.1;
              disk_fits = h3.1;
            },
          ),
      λ (small, f). e5.1 (
        e4.1 (e3.1 (e2.1 (e1.1 (small, f.memory_fits), f.cpu_fits), f.disk_fits), f.in_fits),
        f.out_fits,
      ),
    )

-- `Devide`, while the memory required is less than 2 ^ 63 bytes, is the largest number of copies
-- of the requirement that fit the resources together, and never more than the number of bytes of
-- memory that it asks for.
pub devide_largest :
    (n : ℕ) (dr operand : DeployResource)
    → operand.memory < 9223372036854775808
    → (pos n ≤ℤ devide dr operand) ↔ ((n ≤ operand.memory) × Fits (times n operand) dr)
unfolding devide
devide_largest n dr operand bound =
    let below = (le-smallest_iff (smallest dr operand) dr operand).0 (omega arith) in
    (
      λ h. (le-smallest_iff n dr operand).0 (ground arith),
      λ h. let fits = (le-smallest_iff n dr operand).1 h in ground arith,
    )

-- `Devide` by a requirement that asks for no memory is 0, however much there is.
pub devide-no_memory :
    (dr operand : DeployResource) → operand.memory ≡ 0 → devide dr operand ≡ pos 0
unfolding devide
devide-no_memory dr operand h =
    let none_left = (le-smallest_iff (smallest dr operand) dr operand).0 (omega arith) in
    ground arith

product_zero : (a b : ℕ) → a ≤ b → a * b ≤ 0 → a ≡ 0
product_zero zero b h p = refl
product_zero (suc a) zero h p = absurd (omega arith)
product_zero (suc a) (suc b) h p = let whole = simp unary_clauses at p in absurd (omega arith)

-- Nothing with no memory is divided but into 0 copies.
pub devide-out_of_memory : (dr operand : DeployResource) → dr.memory ≡ 0 → devide dr operand ≡ pos 0
unfolding devide
devide-out_of_memory dr operand h =
    let least = (le-smallest_iff (smallest dr operand) dr operand).0 (omega arith) in
    let none_left : smallest dr operand ≡ 0 =
      product_zero (smallest dr operand) operand.memory least.0 (ground (arith, least.1, h)) in
    ground (arith, none_left)

-- The free resources after `Subtract` and what was taken fit the resources there before or the
-- taken ones, quantity by quantity: `Subtract` stops at 0 and never wraps.
subtract_exact :
    (dr operand : DeployResource)
    → Fits operand dr
    → ((subtract dr operand).memory + operand.memory ≡ dr.memory)
      × ((subtract dr operand).cpu + operand.cpu ≡ dr.cpu)
      × ((subtract dr operand).network_in + operand.network_in ≡ dr.network_in)
      × ((subtract dr operand).network_out + operand.network_out ≡ dr.network_out)
      × ((subtract dr operand).disk_space + operand.disk_space ≡ dr.disk_space)
unfolding subtract
subtract_exact dr operand f = ground arith
