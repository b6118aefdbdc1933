-- ===== src/Server/Connect/WriteQueue/Bounds.antt =====
-- How much a connection holds: pendingBytes and its two limits (pkg/server/connect.go).
use nmid.Prelude.{ℕ, ◌+◌, ◌≤◌, ◌≡◌, refl, [], ◌∷◌, ◌++◌, List, length, length-append, arith}
use nmid.Wire.{Bytes}
use nmid.Server.Connect.WriteQueue.{Connect, Loop, waiting, writing, draining, returned, Step}
use nmid.Server.Connect.WriteQueue.{count, refuse, undo, send, give_up, receive, write, end, fail}
use nmid.Server.Connect.WriteQueue.{close, stop, drain, return, Reachable, start, next}
use nmid.Server.Connect.WriteQueue.{max_pending_bytes, queue_size}

abbrev pub sizes_of : List Bytes → ℕ
sizes_of [] = 0
sizes_of (buf ∷ bufs) = length buf + sizes_of bufs

abbrev pub in_flight : Loop → ℕ
in_flight waiting = 0
in_flight (writing n rest) = n
in_flight draining = 0
in_flight returned = 0

sizes_of-append : (xs ys : List Bytes) → sizes_of (xs ++ ys) ≡ sizes_of xs + sizes_of ys
sizes_of-append [] ys = omega arith
sizes_of-append (x ∷ xs) ys = omega (arith, sizes_of-append xs ys)

pub record IsBounded (c : Connect) : Type 0 where
  pub exact :
      c.pending_bytes
      ≡ sizes_of c.counted + sizes_of c.refused + sizes_of c.write_ch + in_flight c.loop
  pub bytes : sizes_of c.counted + sizes_of c.write_ch + in_flight c.loop ≤ max_pending_bytes
  pub packets : length c.write_ch ≤ queue_size

-- Taking one packet out of the middle of a list.
sizes_of-middle :
    (l xs : List Bytes) (buf : Bytes) (ys : List Bytes)
    → l ≡ xs ++ buf ∷ ys
    → sizes_of l ≡ length buf + sizes_of (xs ++ ys)
sizes_of-middle l xs buf ys e =
    rw e (omega (arith, sizes_of-append xs ys, sizes_of-append xs (buf ∷ ys)))

step-IsBounded : {c d : Connect} → Step c d → IsBounded c → IsBounded d
step-IsBounded {c} (count buf opened some_bytes room) b = record {
  exact = omega (arith, b.exact);
  bytes = ground (arith, b.exact, b.bytes);
  packets = b.packets;
}
step-IsBounded {c} (refuse buf opened some_bytes full) b = record {
  exact = omega (arith, b.exact);
  bytes = b.bytes;
  packets = b.packets;
}
step-IsBounded {c} (undo xs buf ys e) b = record {
  exact = omega (arith, b.exact, sizes_of-middle c.refused xs buf ys e);
  bytes = b.bytes;
  packets = b.packets;
}
step-IsBounded {c} (send xs buf ys e room) b =
    let size = sizes_of-append c.write_ch (buf ∷ []) in
    record {
      exact = omega (arith, b.exact, size, sizes_of-middle c.counted xs buf ys e);
      bytes = omega (arith, b.bytes, size, sizes_of-middle c.counted xs buf ys e);
      packets = omega (arith, room, length-append c.write_ch (buf ∷ []));
    }
step-IsBounded {c} (give_up xs buf ys e full) b = record {
  exact = omega (arith, b.exact, sizes_of-middle c.counted xs buf ys e);
  bytes = omega (arith, b.bytes, sizes_of-middle c.counted xs buf ys e);
  packets = b.packets;
}
step-IsBounded {c} (receive buf rest p q) b = record {
  exact = ground (arith, b.exact, p, q);
  bytes = ground (arith, b.bytes, p, q);
  packets = ground (arith, b.packets, q);
}
step-IsBounded {c} (write n xs rest p) b = record {
  exact = ground (arith, b.exact, p);
  bytes = ground (arith, b.bytes, p);
  packets = b.packets;
}
step-IsBounded {c} (end n p) b = record {
  exact = ground (arith, b.exact, p);
  bytes = ground (arith, b.bytes, p);
  packets = b.packets;
}
step-IsBounded {c} (fail n rest p) b = record {
  exact = ground (arith, b.exact, p);
  bytes = ground (arith, b.bytes, p);
  packets = b.packets;
}
step-IsBounded {c} close b = record { exact = b.exact; bytes = b.bytes; packets = b.packets }
step-IsBounded {c} (stop shut p) b = record {
  exact = ground (arith, b.exact, p);
  bytes = ground (arith, b.bytes, p);
  packets = b.packets;
}
step-IsBounded {c} (drain buf rest p q) b = record {
  exact = ground (arith, b.exact, p, q);
  bytes = ground (arith, b.bytes, p, q);
  packets = ground (arith, b.packets, q);
}
step-IsBounded {c} (return p q) b = record {
  exact = ground (arith, b.exact, p);
  bytes = ground (arith, b.bytes, p);
  packets = b.packets;
}

-- However its writers and its loop interleave: pendingBytes is exactly the bytes that are counted
-- and not yet counted off, what is counted and not refused is at most 4 MiB, and the channel holds at
-- most 256 packets.
pub Reachable-IsBounded : {c : Connect} → Reachable c → IsBounded c
Reachable-IsBounded start = record { exact = refl; bytes = omega arith; packets = omega arith }
Reachable-IsBounded (next r s) = step-IsBounded s (Reachable-IsBounded r)
