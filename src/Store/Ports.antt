-- ===== src/Store/Ports.antt =====
-- internal/master/store/store.go, the section "Port allocation".
pub mod Laws
use pumpkin_pie.Prelude.{
  ℕ, zero, suc, ◌+◌, ◌-◌, not, ◌&&◌, String, Option, none, some, List, map, any, keep, leb, nat_eq,
  if◌then◌else◌,
}
use pumpkin_pie.Exec.{ok, pure, raise, ◌>>=◌, ◌>>◌}
use pumpkin_pie.Store.Tables.{Tables, no_free_port}
use pumpkin_pie.Store.Sql.{Sql, exec, query, transaction}
use pumpkin_pie.Store.Statements.{insert_port_row}

-- SELECT port FROM port_alloc WHERE port>=? AND port<=?, the map `used`
unfoldable pub used_ports : ℕ → ℕ → Tables → List ℕ
used_ports start end t =
    map (λ r. r.port) (keep (λ r. leb start r.port && leb r.port end) t.port_alloc)

-- for p := start; p <= end; p++, with `rounds` the rounds left: end + 1 - start at first. (The
-- uint32 counter does not wrap unless `end` is 2^32 - 1.)
unfoldable pub first_free : List ℕ → ℕ → ℕ → Option ℕ
first_free used p zero = none
first_free used p (suc rounds) =
    let rest = first_free used (p + 1) rounds in if any (nat_eq p) used then rest else some p

-- The insert at the port found, or the error after the loop.
unfoldable pub take_port : ℕ → ℕ → String → Option ℕ → Sql ℕ
unfolding ◌>>=◌ exec insert_port_row
take_port start end container_id none = raise (no_free_port start end)
take_port start end container_id (some p) =
    exec (insert_port_row (record { port = p; container_id = container_id })) >> pure p

unfoldable pub alloc_port : ℕ → ℕ → String → Sql ℕ
unfolding transaction ◌>>=◌ query used_ports first_free take_port
alloc_port start end container_id = transaction (
    query (used_ports start end) >>= λ used.
    take_port start end container_id (first_free used start (end + 1 - start)))

unfoldable pub free_port : ℕ → Sql Unit
unfolding exec
free_port port =
    exec λ t. ok (tt, record t { port_alloc = keep (λ r. not (nat_eq r.port port)) t.port_alloc })
