-- ===== src/Router/Patterns.antt =====
-- The two patterns of routes in controllers/java/router/types.go, `v2Re` and `v4Re`.
use snk_fork_dolphin.Base.{ℕ, ◌≡◌, refl, arith, true, false, ◌==◌}
use snk_fork_dolphin.Base.Chars.{is_space}
use snk_fork_dolphin.Router.{v2_key, v2_value, v4_key, v4_value}
use snk_fork_dolphin.Router.Clauses.{Pattern}

pub v2_key-space : (c : ℕ) → v2_key c ≡ true → is_space c ≡ false
unfolding v2_key is_space
v2_key-space c h = ground arith

pub v2_value-space : (c : ℕ) → v2_value c ≡ true → is_space c ≡ false
unfolding v2_value is_space
v2_value-space c h = ground arith

pub v2_key-hash : (c : ℕ) → v2_key c ≡ true → (c == b'#') ≡ false
unfolding v2_key
v2_key-hash c h = ground arith

pub v2_key-eq : v2_key b'=' ≡ false
unfolding v2_key
v2_key-eq = refl

pub v2_key-ne : v2_key b'!' ≡ false
unfolding v2_key
v2_key-ne = refl

pub v2_key-break : v2_key b'\n' ≡ false
unfolding v2_key
v2_key-break = refl

pub v2_value-break : v2_value b'\n' ≡ false
unfolding v2_value
v2_value-break = refl

pub v2_value-sep : v2_value b';' ≡ true
unfolding v2_value
v2_value-sep = refl

pub v4_key-space : (c : ℕ) → v4_key c ≡ true → is_space c ≡ false
unfolding v4_key is_space
v4_key-space c h = ground arith

pub v4_value-space : (c : ℕ) → v4_value c ≡ true → is_space c ≡ false
unfolding v4_value is_space
v4_value-space c h = ground arith

pub v4_key-hash : (c : ℕ) → v4_key c ≡ true → (c == b'#') ≡ false
unfolding v4_key
v4_key-hash c h = ground arith

pub v4_key-eq : v4_key b'=' ≡ false
unfolding v4_key
v4_key-eq = refl

pub v4_key-ne : v4_key b'!' ≡ false
unfolding v4_key
v4_key-ne = refl

pub v4_key-break : v4_key b'\n' ≡ false
unfolding v4_key
v4_key-break = refl

pub v4_value-break : v4_value b'\n' ≡ false
unfolding v4_value
v4_value-break = refl

pub v4_value-sep : v4_value b',' ≡ true
unfolding v4_value
v4_value-sep = refl

-- The pattern of API 2.0.
abbrev pub v2 : Pattern
v2 = record {
  in_key = v2_key;
  in_value = v2_value;
  fsep = b';';
  key_space = v2_key-space;
  value_space = v2_value-space;
  key_hash = v2_key-hash;
  no_eq = v2_key-eq;
  no_ne = v2_key-ne;
  key_break = v2_key-break;
  value_break = v2_value-break;
  sep_value = v2_value-sep;
}

-- The pattern of API 4.0.
abbrev pub v4 : Pattern
v4 = record {
  in_key = v4_key;
  in_value = v4_value;
  fsep = b',';
  key_space = v4_key-space;
  value_space = v4_value-space;
  key_hash = v4_key-hash;
  no_eq = v4_key-eq;
  no_ne = v4_key-ne;
  key_break = v4_key-break;
  value_break = v4_value-break;
  sep_value = v4_value-sep;
}
