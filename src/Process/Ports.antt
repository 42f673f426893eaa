-- ===== src/Process/Ports.antt =====
-- process/process_net_linux.go: on which ports a process listens, by /proc.
pub mod Child
pub mod Rows
pub mod Address
use snk_fork_dolphin.Base.{
  ℕ, zero, suc, ◌+◌, ◌-◌, ◌*◌, ◌++◌, Bool, true, false, not, ◌||◌, ◌&&◌, List, [], ◌∷◌, Option,
  none, some, if◌then◌else◌, is_empty, take, drop, length, ltb, leb, ◌==◌, get_elem?, set,
}
use snk_fork_dolphin.Base.Chars.{is_space}
use snk_fork_dolphin.Base.Decimal.{decimal, atoi}
use snk_fork_dolphin.Base.Int.{ℤ, pos, negsuc, eqb_ℤ, ltb_ℤ}
use snk_fork_dolphin.Base.Outcome.{Outcome, done, panicked, ◌>>=◌}
use snk_fork_dolphin.Base.Path.{split}
use snk_fork_dolphin.Base.Table.{Table, lookup, insert}
use snk_fork_dolphin.Base.Text.{Text, codes, text_eq, has_prefix}
use snk_fork_dolphin.Process.{Addr}
use snk_fork_dolphin.Types.Fault.{Errors, outside}

-- `walkFunc` over the links that can be read; `inode[8 : l-1]` panics where the link has no more
-- than its prefix.
unfoldable pub walk_links : Table Addr → List Text → List Addr → Outcome (List Addr)
walk_links inodes [] ports = done ports
walk_links inodes (link ∷ links) ports =
    let addr = lookup (take (length link - 9) (drop 8 link)) inodes in
    let skipped = walk_links inodes links ports in
    let next : Outcome (List Addr) = elim addr [
      | none ↦ walk_links inodes links ports
      | some a ↦ walk_links inodes links (ports ++ a ∷ [])
    ] in
    if not (has_prefix link (codes "socket:["))
    then skipped
    else if length link == 8
    then panicked
    else next

-- `cport == pport`
unfoldable pub same_addr : Addr → Addr → Bool
same_addr a b = text_eq a.ip b.ip && eqb_ℤ a.port b.port

unfoldable pub mem_addr : Addr → List Addr → Bool
unfolding same_addr
mem_addr a [] = false
mem_addr a (p ∷ ports) = same_addr a p || mem_addr a ports

-- The loop `outer`.
unfoldable pub without_ports : List Addr → List Addr → List Addr
unfolding mem_addr
without_ports ports [] = []
without_ports ports (c ∷ child_ports) =
    let rest = without_ports ports child_ports in if mem_addr c ports then rest else c ∷ rest

-- `ListenPortsOfPid`: `opened` says whether the directory can be opened, `inodes` is what
-- `getListenPort` returns, `links` are the links of the process and of its parent. The second walk
-- appends to the same variable `ports` as the first.
unfoldable pub listen_ports_of_pid :
    Bool → Option (Table Addr) → List Text → ℕ → List Text → Outcome (List Addr × Errors)
listen_ports_of_pid false inodes links ppid parent_links = done ([], [])
listen_ports_of_pid true none links ppid parent_links = done ([], outside 0 ∷ [])
listen_ports_of_pid true (some inodes) links ppid parent_links = do
  child_ports ← walk_links inodes links []
  let alone = ppid == 0 || ppid == 1
  ports ← (if alone then done child_ports else walk_links inodes parent_links child_ports)
  done (if alone then (child_ports, []) else (without_ports ports child_ports, []))

-- `strings.Fields`, with the field that is being read.
unfoldable pub fields_from : Text → Text → List Text
fields_from cur [] = if is_empty cur then [] else cur ∷ []
fields_from cur (c ∷ s) =
    let rest = fields_from [] s in
    let here = if is_empty cur then rest else cur ∷ rest in
    let longer = fields_from (cur ++ c ∷ []) s in if is_space c then here else longer

unfoldable pub fields : Text → List Text
unfolding fields_from
fields s = fields_from [] s

-- `reverse`: the loop that swaps from both ends, on fuel; the length is enough.
unfoldable pub swap_at : ℕ → ℕ → List ℕ → List ℕ
swap_at i j s = elim (get_elem? s i) [
  | none ↦ s
  | some a ↦ elim (get_elem? s j) [ none ↦ s | some b ↦ set (set s i b) j a ]
]

unfoldable pub reverse_loop : ℕ → ℕ → ℕ → List ℕ → List ℕ
unfolding swap_at
reverse_loop zero i j s = s
reverse_loop (suc fuel) i j s =
    let next = reverse_loop fuel (i + 1) (j - 1) (swap_at i j s) in if ltb i j then next else s

unfoldable pub reverse : List ℕ → List ℕ
unfolding reverse_loop
reverse s = reverse_loop (length s) 0 (length s - 1) s

-- The value of a hexadecimal digit.
unfoldable pub hex_value : ℕ → Option ℕ
hex_value c =
    if leb b'0' c && leb c b'9'
    then some (c - b'0')
    else if leb b'a' c && leb c b'f'
    then some (c - 87)
    else if leb b'A' c && leb c b'F'
    then some (c - 55)
    else none

-- `strconv.ParseInt("0x" + s, 0, 64)`, where `acc` is what is read; the underscores that it would
-- allow are no digits here, as in the addresses of the kernel.
unfoldable pub parse_hex : ℕ → Text → Option ℕ
parse_hex acc [] = if ltb acc 9223372036854775808 then some acc else none
parse_hex acc (c ∷ s) = elim (hex_value c) [ none ↦ none | some d ↦ parse_hex (acc * 16 + d) s ]

-- `hex.DecodeString`
unfoldable pub decode_hex : Text → Option (List ℕ)
decode_hex [] = some []
decode_hex (c ∷ []) = none
decode_hex (c ∷ d ∷ s) = elim (hex_value c) [
  | none ↦ none
  | some hi ↦ elim (hex_value d) [
    | none ↦ none
    | some lo ↦ elim (decode_hex s) [ none ↦ none | some bs ↦ some ((hi * 16 + lo) ∷ bs) ]
  ]
]

-- `net.IP.String`, for an address of four bytes; `other` writes one of another length.
unfoldable pub ip_string : (List ℕ → Text) → List ℕ → Text
ip_string other (a ∷ b ∷ c ∷ d ∷ []) =
    decimal a ++ b'.' ∷ decimal b ++ b'.' ∷ decimal c ++ b'.' ∷ decimal d
ip_string other bs = other bs

-- `decodeAddress`; `none` is an error.
unfoldable pub decode_address : (List ℕ → Text) → Text → Option Addr
decode_address other src = elim (split b':' src) [
  | [] ↦ none
  | addr ∷ [] ↦ none
  | addr ∷ port ∷ [] ↦ elim (parse_hex 0 port) [
    | none ↦ none
    | some n ↦ if is_empty port then none else elim (decode_hex addr) [
      | none ↦ none
      | some bs ↦ some (record { ip = ip_string other (reverse bs); port = pos n })
    ]
  ]
  | addr ∷ port ∷ more ∷ rest ↦ none
]

-- A line of /proc/net/tcp after its fields are found: too short, in another state than to listen,
-- or one that listens, by its inode.
pub data Row : Type 0 where
  short other : Row
  listening : Text → Option Addr → Row

unfoldable pub row_of : (List ℕ → Text) → List Text → Row
row_of ip (f0 ∷ laddr ∷ f2 ∷ state ∷ f4 ∷ f5 ∷ f6 ∷ f7 ∷ f8 ∷ inode ∷ _) =
    if text_eq state (codes "0A") then listening inode (decode_address ip laddr) else other
row_of ip _ = short

-- The loop of `getListenPort` over the lines, with the count of lines since the last that listens.
unfoldable pub listen_rows : List Row → ℕ → Table Addr → Table Addr
listen_rows [] count ret = ret
listen_rows (short ∷ rows) count ret = listen_rows rows count ret
listen_rows (other ∷ rows) count ret =
    let next = listen_rows rows (count + 1) ret in if ltb 5 (count + 1) then ret else next
listen_rows (listening inode none ∷ rows) count ret = listen_rows rows 0 ret
listen_rows (listening inode (some la) ∷ rows) count ret = listen_rows rows 0 (insert inode la ret)

unfoldable pub rows_of : (List ℕ → Text) → List Text → List Row
rows_of ip [] = []
rows_of ip (line ∷ lines) = row_of ip (fields line) ∷ rows_of ip lines

-- `getListenPort` of the lines of /proc/net/tcp, whose first is skipped; `none` is an error in
-- opening it.
unfoldable pub get_listen_port : (List ℕ → Text) → Option (List Text) → Option (Table Addr)
unfolding listen_rows rows_of
get_listen_port ip none = none
get_listen_port ip (some lines) = some (listen_rows (rows_of ip (drop 1 lines)) 0 [])

-- `strings.HasSuffix(s, ")")`
unfoldable pub closes : Text → Bool
closes [] = false
closes (c ∷ []) = c == b')'
closes (c ∷ d ∷ s) = closes (d ∷ s)

-- The loop of `fillFromStat` from the field `fields[i]`: the second field after the first that
-- closes a bracket is the parent, as an int of 32 bits. An index out of range panics.
unfoldable pub ppid_in : List Text → Outcome (Option ℤ)
unfolding closes
ppid_in [] = panicked
ppid_in (f ∷ fs) =
    let here : Outcome (Option ℤ) = elim (get_elem? fs 1) [
      | none ↦ panicked
      | some t ↦ done (elim (atoi t) [
        | none ↦ none
        | some n ↦ if ltb_ℤ n (negsuc 2147483647) || ltb_ℤ (pos 2147483647) n then none else some n
      ])
    ] in
    let next = ppid_in fs in if closes f then here else next

-- `fillFromStat` of the contents of `stat`; `none` is an error.
unfoldable pub fill_from_stat : Option Text → Outcome (Option ℤ)
unfolding ppid_in fields
fill_from_stat none = done none
fill_from_stat (some contents) = ppid_in (drop 1 (fields contents))
