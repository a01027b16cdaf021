-- ===== src/Connection.antt =====
-- The write queue of a connection (src/connection.cpp): `async_send_json`, `do_write` and `close`. A
-- message is any value; any number of writes may be under way, and each of them ends in its time, well
-- or with an error.
pub mod Order
mod Tests
use suba_sync.Prelude.{
  ℕ, zero, suc, Bool, true, false, not, Option, none, some, List, [], ◌∷◌, ◌++◌, is_empty,
}

-- `write_queue_`, `writing_`, the writes under way (each `async_write` that has not ended), what the
-- socket has taken, and whether it is open.
pub record Connection (M : Type 0) : Type 0 where
  pub write_queue : List M
  pub writing : Bool
  pub under_way : List M
  pub written : List M
  pub is_open : Bool

module _ {M : Type 0} where
  -- `do_write`: the front of the queue goes to `async_write`.
  unfoldable pub do_write : Connection M → Connection M
  do_write c = elim c.write_queue [
    | [] ↦ c
    | front ∷ rest ↦ record c { writing = true; under_way = c.under_way ++ front ∷ [] }
  ]

  -- `async_send_json`
  unfoldable pub async_send_json : M → Connection M → Connection M
  unfolding do_write
  async_send_json message c =
      let queued = record c { write_queue = c.write_queue ++ message ∷ [] } in
      elim c.write_queue [ [] ↦ do_write queued | front ∷ rest ↦ queued ]

  -- The end of the queue after `pop_front`: the next write, or none.
  unfoldable pub write_next : Connection M → Connection M
  unfolding do_write
  write_next c = elim c.write_queue [
    | [] ↦ record c { writing = false }
    | front ∷ rest ↦ do_write c
  ]

  -- The write at a place among those under way, and the others.
  unfoldable pub take_write : ℕ → List M → Option (M × List M)
  take_write n [] = none
  take_write zero (m ∷ writes) = some (m, writes)
  take_write (suc n) (m ∷ writes) = elim (take_write n writes) [
    | none ↦ none
    | some (m', others) ↦ some (m', m ∷ others)
  ]

  -- The queue after `pop_front`.
  abbrev pub pop_front : List M → List M
  pop_front [] = []
  pop_front (m ∷ rest) = rest

  -- The callback without an error of the write at a place among those under way: the socket has taken
  -- its message, and the front of the queue goes, whichever message that is.
  unfoldable pub on_written : ℕ → Connection M → Connection M
  unfolding take_write write_next
  on_written n c = elim (take_write n c.under_way) [
    | none ↦ c
    | some (message, others) ↦ write_next (record c {
      write_queue = pop_front c.write_queue;
      under_way = others;
      written = c.written ++ message ∷ [];
    })
  ]

  -- The callback with an error: the socket is closed, and the queue stays as it is. What `close`
  -- tells the peer manager is in Peers.
  unfoldable pub on_write_error : ℕ → Connection M → Connection M
  unfolding take_write
  on_write_error n c = elim (take_write n c.under_way) [
    | none ↦ c
    | some (message, others) ↦ record c { under_way = others; is_open = false }
  ]
