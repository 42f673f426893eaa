-- ===== src/Process/Ports/Address.antt =====
-- The addresses that the kernel writes, read by `decodeAddress` of process/process_net_linux.go.
use snk_fork_dolphin.Base.{
  ℕ, ◌+◌, ◌*◌, ◌/◌, ◌%◌, ◌≡◌, ◌∙◌, ◌<◌, refl, ap, ◌++◌, false, List, [], ◌∷◌, some, arith,
  if◌then◌else◌, ltb, is_empty, ◌≢◌,
}
use snk_fork_dolphin.Base.Decimal.{decimal}
use snk_fork_dolphin.Base.Int.{pos}
use snk_fork_dolphin.Base.Path.{split, split-append, split-Lacks}
use snk_fork_dolphin.Base.Text.{Text, Lacks}
use snk_fork_dolphin.Process.Ports.{
  hex_value, parse_hex, decode_hex, ip_string, decode_address, reverse, reverse_loop, swap_at,
}

-- How the kernel writes a digit, a byte, and a port.
pub hex_digit : ℕ → ℕ
hex_digit n = if ltb n 10 then b'0' + n else 55 + n

hex_byte : ℕ → Text
hex_byte n = hex_digit (n / 16) ∷ hex_digit (n % 16) ∷ []

-- `%08X:%04X` of the address a.b.c.d, whose bytes lie the other way round in memory, and the port.
pub kernel_address : ℕ → ℕ → ℕ → ℕ → ℕ → Text
unfolding hex_byte hex_digit
kernel_address a b c d port =
    (hex_byte d ++ (hex_byte c ++ (hex_byte b ++ (hex_byte a ++ []))))
    ++ b':' ∷ (hex_byte (port / 256) ++ (hex_byte (port % 256) ++ []))

hex_value-hex_digit : (n : ℕ) → n < 16 → hex_value (hex_digit n) ≡ some n
unfolding hex_value hex_digit
hex_value-hex_digit n h = ground arith

hex_digit-colon : (n : ℕ) → n < 16 → hex_digit n ≢ b':'
unfolding hex_digit
hex_digit-colon n h = ground arith

Lacks-hex_byte : (n : ℕ) (s : Text) → n < 256 → Lacks b':' s → Lacks b':' (hex_byte n ++ s)
unfolding hex_byte
Lacks-hex_byte n s h l =
    (hex_digit-colon (n / 16) (omega arith), (hex_digit-colon (n % 16) (omega arith), l))

decode_hex-nil : decode_hex [] ≡ some []
unfolding decode_hex
decode_hex-nil = refl

filled : (n : ℕ) (s : Text) → is_empty (hex_byte n ++ s) ≡ false
unfolding hex_byte
filled n s = refl

decode_hex-hex_byte :
    (n : ℕ) (s : Text) (bs : List ℕ)
    → n < 256
    → decode_hex s ≡ some bs
    → decode_hex (hex_byte n ++ s) ≡ some (n ∷ bs)
unfolding decode_hex hex_byte
decode_hex-hex_byte n s bs h e =
    ground (arith, hex_value-hex_digit (n / 16), hex_value-hex_digit (n % 16), e)

parse_hex-hex_byte :
    (acc n : ℕ) (s : Text) → n < 256 → parse_hex acc (hex_byte n ++ s) ≡ parse_hex (acc * 256 + n) s
unfolding parse_hex hex_byte
parse_hex-hex_byte acc n s h =
    let whole : (acc * 16 + n / 16) * 16 + n % 16 ≡ acc * 256 + n = omega arith in
    let digits : parse_hex acc (hex_byte n ++ s) ≡ parse_hex ((acc * 16 + n / 16) * 16 + n % 16) s =
      ground (arith, hex_value-hex_digit (n / 16), hex_value-hex_digit (n % 16)) in
    digits ∙ ap (λ k. parse_hex k s) whole

parsed : (n port : ℕ) → n ≡ port → port < 65536 → parse_hex n [] ≡ some port
unfolding parse_hex
parsed n port e h = rw e (ground arith)

parse_hex-port :
    (port : ℕ)
    → port < 65536
    → parse_hex 0 (hex_byte (port / 256) ++ (hex_byte (port % 256) ++ [])) ≡ some port
parse_hex-port port h =
    parse_hex-hex_byte 0 (port / 256) (hex_byte (port % 256) ++ []) (omega arith)
    ∙ parse_hex-hex_byte (0 * 256 + port / 256) (port % 256) [] (omega arith)
    ∙ parsed ((0 * 256 + port / 256) * 256 + port % 256) port (omega arith) h

reverse-four : (a b c d : ℕ) → reverse (d ∷ c ∷ b ∷ a ∷ []) ≡ a ∷ b ∷ c ∷ d ∷ []
unfolding reverse reverse_loop swap_at
reverse-four a b c d = refl

-- The address of a socket, as the kernel writes it, is read as the dotted address, in the order of
-- its bytes, with its port.
pub decode_address-kernel_address :
    (other : List ℕ → Text) (a b c d port : ℕ)
    → a < 256
    → b < 256
    → c < 256
    → d < 256
    → port < 65536
    → decode_address other (kernel_address a b c d port)
      ≡ some (record {
        ip = decimal a ++ b'.' ∷ decimal b ++ b'.' ∷ decimal c ++ b'.' ∷ decimal d;
        port = pos port;
      })
unfolding decode_address kernel_address ip_string
decode_address-kernel_address other a b c d port ha hb hc hd hp =
    let addr = hex_byte d ++ (hex_byte c ++ (hex_byte b ++ (hex_byte a ++ []))) in
    let ports = hex_byte (port / 256) ++ (hex_byte (port % 256) ++ []) in
    let no_colon : Lacks b':' addr =
      Lacks-hex_byte d (hex_byte c ++ (hex_byte b ++ (hex_byte a ++ []))) hd (
        Lacks-hex_byte c (hex_byte b ++ (hex_byte a ++ [])) hc
          (Lacks-hex_byte b (hex_byte a ++ []) hb (Lacks-hex_byte a [] ha tt))) in
    let no_colon' : Lacks b':' ports =
      Lacks-hex_byte (port / 256) (hex_byte (port % 256) ++ []) (omega arith)
        (Lacks-hex_byte (port % 256) [] (omega arith) tt) in
    let parts : split b':' (addr ++ b':' ∷ ports) ≡ addr ∷ ports ∷ [] =
      split-append b':' addr ports no_colon ∙ ap (◌∷◌ addr) (split-Lacks b':' ports no_colon') in
    let bytes : decode_hex addr ≡ some (d ∷ c ∷ b ∷ a ∷ []) = decode_hex-hex_byte d _ _ hd (
      decode_hex-hex_byte c _ _ hc
        (decode_hex-hex_byte b _ _ hb (decode_hex-hex_byte a [] [] ha decode_hex-nil))) in
    ground (
      arith,
      parts,
      bytes,
      parse_hex-port port hp,
      filled (port / 256) (hex_byte (port % 256) ++ []),
      reverse-four a b c d,
    )
