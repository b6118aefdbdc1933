-- ===== src/Server/Connect/WriteQueue/Order.antt =====
-- The order in which the connection takes the accepted packets (pkg/server/connect.go).
use mathlib.Core.List.{append_assoc, append-nil}
use nmid.Prelude.{◌≡◌, refl, sym, ap, ◌∙◌, [], ◌∷◌, ◌++◌, List}
use nmid.Wire.{Bytes}
use nmid.Server.Connect.WriteQueue.{Connect, Loop, waiting, writing, draining, returned, Step}
use nmid.Server.Connect.WriteQueue.{count, refuse, undo, send, give_up, receive, write, end, fail}
use nmid.Server.Connect.WriteQueue.{close, stop, drain, return, Reachable, start, next}

abbrev pub concat : List Bytes → Bytes
concat [] = []
concat (buf ∷ bufs) = buf ++ concat bufs

concat-snoc : (bufs : List Bytes) (buf : Bytes) → concat (bufs ++ buf ∷ []) ≡ concat bufs ++ buf
concat-snoc [] buf = append-nil buf
concat-snoc (x ∷ bufs) buf = ap (λ xs. x ++ xs) (concat-snoc bufs buf) ∙ sym (append_assoc x _ _)

-- What is still to be written of the accepted packets, by what the loop is doing: all of it while
-- the loop runs, and no more than something once it has stopped.
abbrev pub Follows : Loop → Bytes → Bytes → List Bytes → Type 0
Follows waiting all wire queue = all ≡ wire ++ concat queue
Follows (writing n rest) all wire queue = all ≡ wire ++ (rest ++ concat queue)
Follows draining all wire queue = (lost : Bytes) × (all ≡ wire ++ lost)
Follows returned all wire queue = (lost : Bytes) × (all ≡ wire ++ lost)

abbrev pub IsOrdered : Connect → Type 0
IsOrdered c = Follows c.loop (concat c.accepted) c.wire c.write_ch

Follows-snoc :
    (loop : Loop) (accepted : List Bytes) (wire : Bytes) (queue : List Bytes) (buf : Bytes)
    → Follows loop (concat accepted) wire queue
    → Follows loop (concat (accepted ++ buf ∷ [])) wire (queue ++ buf ∷ [])
Follows-snoc waiting accepted wire queue buf f =
    rw (concat-snoc accepted buf, concat-snoc queue buf, f) (append_assoc wire (concat queue) buf)
Follows-snoc (writing n rest) accepted wire queue buf f =
    rw (concat-snoc accepted buf, concat-snoc queue buf, f)
      (append_assoc wire (rest ++ concat queue) buf
        ∙ ap (λ xs. wire ++ xs) (append_assoc rest (concat queue) buf))
Follows-snoc draining accepted wire queue buf (lost, f) =
    (lost ++ buf, rw (concat-snoc, f) (append_assoc wire lost buf))
Follows-snoc returned accepted wire queue buf (lost, f) =
    (lost ++ buf, rw (concat-snoc, f) (append_assoc wire lost buf))

step-IsOrdered : {c d : Connect} → Step c d → IsOrdered c → IsOrdered d
step-IsOrdered (count buf opened some_bytes room) o = o
step-IsOrdered (refuse buf opened some_bytes full) o = o
step-IsOrdered (undo xs buf ys e) o = o
step-IsOrdered {c} (send xs buf ys e room) o =
    Follows-snoc c.loop c.accepted c.wire c.write_ch buf o
step-IsOrdered (give_up xs buf ys e full) o = o
step-IsOrdered {c} (receive buf rest p q) o = rw (p, q) at o
step-IsOrdered {c} (write n xs rest p) o =
    let before : concat c.accepted ≡ c.wire ++ ((xs ++ rest) ++ concat c.write_ch) = rw p at o in
    before
    ∙ ap (λ ys. c.wire ++ ys) (append_assoc xs rest (concat c.write_ch))
    ∙ sym (append_assoc c.wire xs (rest ++ concat c.write_ch))
step-IsOrdered {c} (end n p) o = rw p at o
step-IsOrdered {c} (fail n rest p) o = (_, rw p at o)
step-IsOrdered close o = o
step-IsOrdered {c} (stop shut p) o = (_, rw p at o)
step-IsOrdered {c} (drain buf rest p q) o = rw p (rw p at o)
step-IsOrdered {c} (return p q) o = rw p at o

-- However the writers and the loop interleave: while the loop runs, the accepted packets in their
-- order are what the connection took, the rest of the packet that is being written, and the
-- channel; once the loop has stopped, what the connection took is still a beginning of them.
pub Reachable-IsOrdered : {c : Connect} → Reachable c → IsOrdered c
Reachable-IsOrdered start = refl
Reachable-IsOrdered (next r s) = step-IsOrdered s (Reachable-IsOrdered r)
