-- ===== src/Process/Ports/Rows.antt =====
-- How far /proc/net/tcp is read, in process/process_net_linux.go.
use snk_fork_dolphin.Base.{ℕ, ◌+◌, ◌≡◌, ◌≤◌, ◌++◌, List, [], ◌∷◌, none, some, arith, length, All}
use snk_fork_dolphin.Base.Table.{Table, insert}
use snk_fork_dolphin.Process.{Addr}
use snk_fork_dolphin.Process.Ports.{Row, short, other, listening, listen_rows}

-- A run of lines in another state than to listen that brings the count above five ends the reading.
listen_rows-run :
    (run rest : List Row) (count : ℕ) (ret : Table Addr)
    → All (λ r. r ≡ other) run
    → 6 ≤ count + length run
    → count ≤ 5
    → listen_rows (run ++ rest) count ret ≡ ret
unfolding listen_rows
listen_rows-run [] rest count ret h many few = absurd (omega arith)
listen_rows-run (r ∷ run) rest count ret h many few =
    rw h.0 (ground (arith, listen_rows-run run rest (count + 1) ret h.1))

-- After six lines in a row that are in another state than to listen nothing more is read: the ports
-- that are found are those found before, whatever lines follow.
pub listen_rows-stops :
    (before run rest : List Row) (count : ℕ) (ret : Table Addr)
    → All (λ r. r ≡ other) run
    → 6 ≤ length run
    → count ≤ 5
    → listen_rows (before ++ (run ++ rest)) count ret ≡ listen_rows before count ret
unfolding listen_rows
listen_rows-stops [] run rest count ret h many few =
    listen_rows-run run rest count ret h (omega arith) few
listen_rows-stops (short ∷ before) run rest count ret h many few =
    listen_rows-stops before run rest count ret h many few
listen_rows-stops (other ∷ before) run rest count ret h many few =
    ground (arith, listen_rows-stops before run rest (count + 1) ret h many)
listen_rows-stops (listening inode none ∷ before) run rest count ret h many few =
    listen_rows-stops before run rest 0 ret h many (omega arith)
listen_rows-stops (listening inode (some la) ∷ before) run rest count ret h many few =
    listen_rows-stops before run rest 0 (insert inode la ret) h many (omega arith)
