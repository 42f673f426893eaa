-- ===== src/Process/Ports/Child.antt =====
-- The ports of a process with a parent, in process/process_net_linux.go.
use mathlib.Core.List.{append_assoc, append-nil}
use snk_fork_dolphin.Base.{
  ◌≡◌, ◌∙◌, refl, sym, ap, ◌++◌, true, false, ◌||◌, ◌==◌, ℕ, List, [], ◌∷◌, some, arith, length,
  All, Bool-cases, Option-cases, inl, inr, take, drop, ◌-◌,
}
use snk_fork_dolphin.Base.Int.{eqb_ℤ_iff}
use snk_fork_dolphin.Base.Outcome.{done, Ends, Ends-bind, Ends-then, Ends-done, Ends-weaken}
use snk_fork_dolphin.Base.Table.{Table, lookup}
use snk_fork_dolphin.Base.Text.{Text, codes, text_eq_refl, has_prefix}
use snk_fork_dolphin.Process.{Addr}
use snk_fork_dolphin.Process.Ports.{
  walk_links, same_addr, mem_addr, without_ports, listen_ports_of_pid,
}
use snk_fork_dolphin.Types.Fault.{Errors}

same_addr_self : (a : Addr) → same_addr a a ≡ true
unfolding same_addr
same_addr_self a = ground (arith, text_eq_refl a.ip, (eqb_ℤ_iff a.port a.port).1 refl)

All-mem_cons :
    (p : Addr) (ports cs : List Addr)
    → All (λ c. mem_addr c ports ≡ true) cs
    → All (λ c. mem_addr c (p ∷ ports) ≡ true) cs
unfolding mem_addr
All-mem_cons p ports [] h = tt
All-mem_cons p ports (c ∷ cs) h = (ground (arith, h.0), All-mem_cons p ports cs h.1)

All-mem_append : (cs extra : List Addr) → All (λ c. mem_addr c (cs ++ extra) ≡ true) cs
unfolding mem_addr
All-mem_append [] extra = tt
All-mem_append (c ∷ cs) extra =
    (ground (arith, same_addr_self c), All-mem_cons c (cs ++ extra) cs (All-mem_append cs extra))

without_ports-All :
    (ports cs : List Addr) → All (λ c. mem_addr c ports ≡ true) cs → without_ports ports cs ≡ []
unfolding without_ports
without_ports-All ports [] h = refl
without_ports-All ports (c ∷ cs) h = rw h.0 (without_ports-All ports cs h.1)

-- A walk appends to the ports that it starts with.
abbrev Extends : List Addr → List Addr → Type 0
Extends ports r = (extra : List Addr) × (r ≡ ports ++ extra)

Ends-walk_links :
    (inodes : Table Addr) (links : List Text) (ports : List Addr)
    → Ends (Extends ports) (walk_links inodes links ports)
unfolding walk_links
Ends-walk_links inodes [] ports = ([], sym (append-nil ports))
Ends-walk_links inodes (link ∷ links) ports =
    elim (Bool-cases (has_prefix link (codes "socket:["))) [
      | inr skipped ↦ rw skipped (Ends-walk_links inodes links ports)
      | inl socket ↦ elim (Bool-cases (length link == 8)) [
        | inl empty ↦ rw (socket, empty) tt
        | inr filled ↦ elim (Option-cases (lookup (take (length link - 9) (drop 8 link)) inodes)) [
          | inl unknown ↦ rw (socket, filled, unknown) (Ends-walk_links inodes links ports)
          | inr (a, known) ↦
              rw (socket, filled, known)
                (Ends-weaken (Extends (ports ++ a ∷ [])) (Extends ports)
                  (walk_links inodes links (ports ++ a ∷ []))
                  (λ r (extra, e). (a ∷ extra, e ∙ append_assoc ports (a ∷ []) extra))
                  (Ends-walk_links inodes links (ports ++ a ∷ [])))
        ]
      ]
    ]

-- Of a process whose parent is neither 0 nor 1 no port is found, on whichever ports it and its
-- parent listen, where the directory and the table of the sockets can be read and no link of a
-- socket without a number makes the walk panic.
pub listen_ports_of_pid-child :
    (inodes : Table Addr) (links : List Text) (ppid : ℕ) (parent_links : List Text)
    (found : List Addr × Errors)
    → (ppid == 0 || ppid == 1) ≡ false
    → listen_ports_of_pid true (some inodes) links ppid parent_links ≡ done found
    → found ≡ ([], [])
unfolding listen_ports_of_pid
listen_ports_of_pid-child inodes links ppid parent_links found parent e =
    Ends-done (λ (r : List Addr × Errors). r ≡ ([], [])) _
      (Ends-bind (λ (r : List Addr × Errors). r ≡ ([], [])) (walk_links inodes links []) _
        (λ cs. rw parent (
          Ends-then (Extends cs) (λ (r : List Addr × Errors). r ≡ ([], []))
            (walk_links inodes parent_links cs) _ (Ends-walk_links inodes parent_links cs)
            (λ ports (extra, same).
              ap (λ ps. (ps, []))
                (ap (λ ps. without_ports ps cs) same
                  ∙ without_ports-All (cs ++ extra) cs (All-mem_append cs extra))))))
      e
