-- ===== src/Server/Connect/WriteQueue/Samples.antt =====
-- One packet that a writer has sent to the channel of a new connection.
use nmid.Prelude.{refl, [], ◌∷◌, arith}
use nmid.Wire.{Bytes}
use nmid.Server.Connect.WriteQueue.{Connect, new_connect, counts, sends, count, send, Reachable}
use nmid.Server.Connect.WriteQueue.{start, next}
use nmid.Server.Connect.WriteQueue.Bounds.{IsBounded, Reachable-IsBounded}
use nmid.Server.Connect.WriteQueue.Order.{IsOrdered, Reachable-IsOrdered}

abbrev packet : Bytes
packet = 1 ∷ 2 ∷ 3 ∷ []

abbrev one_sent : Connect
one_sent = sends (counts new_connect packet) packet []

one_sent-Reachable : Reachable one_sent
one_sent-Reachable =
    next (next start (count packet refl (λ e. cc) refl)) (send [] packet [] refl (omega arith))

Reachable-IsBounded_example : IsBounded one_sent
Reachable-IsBounded_example = Reachable-IsBounded one_sent-Reachable

Reachable-IsOrdered_example : IsOrdered one_sent
Reachable-IsOrdered_example = Reachable-IsOrdered one_sent-Reachable
