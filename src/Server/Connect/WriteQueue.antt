-- ===== src/Server/Connect/WriteQueue.antt =====
-- pkg/server/connect.go: Write, which any goroutine may call, and writeLoop, which takes the packets
-- to the connection.
-- A step of `Steps` is one atomic operation: Write's counting of the pending bytes, its undoing of
-- that, its send to the channel; writeLoop's receive, one write to the connection, its end. Writers
-- between two of their operations stand in `counted` and `refused`, and any of them may go next.
-- `wire` and `accepted` record what the connection took and the packets that Write sent to the
-- channel.
pub mod Bounds
pub mod Order
pub mod Samples
use nmid.Prelude.{ℕ, ◌+◌, ◌-◌, ◌*◌, ◌≤◌, ◌<◌, ◌≡◌, ◌≢◌, [], ◌∷◌, ◌++◌, List, Option, none, some}
use nmid.Prelude.{Bool, true, false, length, ltb}
use nmid.Wire.{Bytes}

abbrev pub max_pending_bytes : ℕ
max_pending_bytes = 4 * 1024 * 1024

abbrev pub queue_size : ℕ
queue_size = 256

-- What writeLoop is doing: it waits, or writes the rest of a packet of this many bytes, or empties
-- the channel because the connection is closed, or has returned.
pub data Loop : Type 0 where
  waiting : Loop
  writing : ℕ → Bytes → Loop
  draining : Loop
  returned : Loop

pub record Connect : Type 0 where
  pub closed : Bool
  pub pending_bytes : ℕ
  pub counted : List Bytes
  pub refused : List Bytes
  pub write_ch : List Bytes
  pub loop : Loop
  pub wire : Bytes
  pub accepted : List Bytes

abbrev pub new_connect : Connect
new_connect = record {
  closed = false;
  pending_bytes = 0;
  counted = [];
  refused = [];
  write_ch = [];
  loop = waiting;
  wire = [];
  accepted = [];
}

module _ (c : Connect) where
  abbrev pub counts : Bytes → Connect
  counts buf = record c { pending_bytes = c.pending_bytes + length buf; counted = buf ∷ c.counted }

  abbrev pub refuses : Bytes → Connect
  refuses buf = record c { pending_bytes = c.pending_bytes + length buf; refused = buf ∷ c.refused }

  abbrev pub undoes : Bytes → List Bytes → Connect
  undoes buf others = record c { pending_bytes = c.pending_bytes - length buf; refused = others }

  abbrev pub sends : Bytes → List Bytes → Connect
  sends buf others = record c {
    counted = others;
    write_ch = c.write_ch ++ buf ∷ [];
    accepted = c.accepted ++ buf ∷ [];
  }

  abbrev pub gives_up : Bytes → List Bytes → Connect
  gives_up buf others = record c { counted = others; refused = buf ∷ c.refused }

  abbrev pub receives : Bytes → List Bytes → Connect
  receives buf rest = record c { loop = writing (length buf) buf; write_ch = rest }

  abbrev pub writes : ℕ → Bytes → Bytes → Connect
  writes n xs rest = record c { loop = writing n rest; wire = c.wire ++ xs }

  abbrev pub ends : ℕ → Connect
  ends n = record c { loop = waiting; pending_bytes = c.pending_bytes - n }

  abbrev pub fails : ℕ → Connect
  fails n = record c { closed = true; loop = returned; pending_bytes = c.pending_bytes - n }

  abbrev pub drains : Bytes → List Bytes → Connect
  drains buf rest = record c { pending_bytes = c.pending_bytes - length buf; write_ch = rest }

-- Write: it counts the packet, and refuses it if that is too much; a counted packet goes to the
-- channel, or is refused if the channel is full; a refused packet is counted off. writeLoop: it
-- receives a packet, writes it in pieces, and counts it off, also when a write fails, which closes the
-- connection; once the connection is closed it may turn to emptying the channel. Anyone may close.
pub data Step : Connect → Connect → Type 0 where
  count :
      {c : Connect} (buf : Bytes)
      → c.closed ≡ false
      → buf ≢ []
      → ltb max_pending_bytes (c.pending_bytes + length buf) ≡ false
      → Step c (counts c buf)
  refuse :
      {c : Connect} (buf : Bytes)
      → c.closed ≡ false
      → buf ≢ []
      → ltb max_pending_bytes (c.pending_bytes + length buf) ≡ true
      → Step c (refuses c buf)
  undo :
      {c : Connect} (xs : List Bytes) (buf : Bytes) (ys : List Bytes)
      → c.refused ≡ xs ++ buf ∷ ys
      → Step c (undoes c buf (xs ++ ys))
  send :
      {c : Connect} (xs : List Bytes) (buf : Bytes) (ys : List Bytes)
      → c.counted ≡ xs ++ buf ∷ ys
      → length c.write_ch < queue_size
      → Step c (sends c buf (xs ++ ys))
  give_up :
      {c : Connect} (xs : List Bytes) (buf : Bytes) (ys : List Bytes)
      → c.counted ≡ xs ++ buf ∷ ys
      → queue_size ≤ length c.write_ch
      → Step c (gives_up c buf (xs ++ ys))
  receive :
      {c : Connect} (buf : Bytes) (rest : List Bytes)
      → c.loop ≡ waiting
      → c.write_ch ≡ buf ∷ rest
      → Step c (receives c buf rest)
  write :
      {c : Connect} (n : ℕ) (xs rest : Bytes)
      → c.loop ≡ writing n (xs ++ rest)
      → Step c (writes c n xs rest)
  end : {c : Connect} (n : ℕ) → c.loop ≡ writing n [] → Step c (ends c n)
  fail : {c : Connect} (n : ℕ) (rest : Bytes) → c.loop ≡ writing n rest → Step c (fails c n)
  close : {c : Connect} → Step c (record c { closed = true })
  stop : {c : Connect} → c.closed ≡ true → c.loop ≡ waiting → Step c (record c { loop = draining })
  drain :
      {c : Connect} (buf : Bytes) (rest : List Bytes)
      → c.loop ≡ draining
      → c.write_ch ≡ buf ∷ rest
      → Step c (drains c buf rest)
  return :
      {c : Connect} → c.loop ≡ draining → c.write_ch ≡ [] → Step c (record c { loop = returned })

pub data Reachable : Connect → Type 0 where
  start : Reachable new_connect
  next : {c d : Connect} → Reachable c → Step c d → Reachable d
