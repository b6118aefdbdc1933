-- ===== src/Worker/Functions/Announce.antt =====
-- What WorkerReady of pkg/worker/worker.go writes to each server.
use mathlib.Core.List.{map, map-map, append_assoc, append-nil}
use nmid.Prelude.{
  ℕ, ◌+◌, ◌<◌, ◌^◌, ◌≡◌, refl, sym, ap, ◌∙◌, [], ◌∷◌, ◌++◌, Bool, true, false, List, length, arith,
}
use nmid.Prelude.{none, ◌⊎◌, inl, inr, ◌≢◌}
use nmid.Wire.{Bytes, ok}
use nmid.Wire.Frame.{frame_bytes}
use nmid.Table.{Table}
use nmid.Model.Pdt
use nmid.Model.ConnType
use nmid.Worker.Request.{Request}
use nmid.Worker.Agent.{Agent, connect}
use nmid.Worker.Agent.Texts.{with_text, wrote, write-with_text, set_worker_name_lem}
use nmid.Worker.Agent.Texts.{add_function_pack_lem, del_function_pack_lem}
use nmid.Worker.Functions.{Function, Worker, pack_name, msg_broadcast, connect_all, broadcast_each}
use nmid.Worker.Functions.{worker_ready, no_agent, no_entry}

-- Every agent has a connection.
abbrev pub AllConnected : List Agent → Type 0
AllConnected [] = Unit
AllConnected (a ∷ agents) = (a.conn ≡ true) × AllConnected agents

-- The packets that MsgBroadcast is called for.
abbrev pub IsFlag : ℕ → Type 0
IsFlag flag = (flag ≡ Pdt.w_set_name) ⊎ (flag ≡ Pdt.w_add_func) ⊎ (flag ≡ Pdt.w_del_func)

-- The text fits into a packet.
abbrev pub IsShort : Bytes → Type 0
IsShort text = 12 + length text < 2 ^ 32

pack_name_lem :
    (name : Bytes) (flag : ℕ) (req : Request)
    → IsFlag flag
    → IsShort name
    → pack_name name flag req ≡ with_text flag name req
pack_name_lem name flag req is h = ground (
  arith,
  is,
  set_worker_name_lem name req h,
  add_function_pack_lem name req h,
  del_function_pack_lem name req h,
)

msg_broadcast_lem :
    (name : Bytes) (flag : ℕ) (agents : List Agent)
    → IsFlag flag
    → IsShort name
    → AllConnected agents
    → msg_broadcast name flag agents ≡ ok (map (wrote flag name) agents)
unfolding msg_broadcast
msg_broadcast_lem name flag [] is h all = refl
msg_broadcast_lem name flag (a ∷ agents) is h all =
    rw
      (
        pack_name_lem name flag a.req is h,
        write-with_text flag name a all.0 h,
        msg_broadcast_lem name flag agents is h all.1,
      )
      refl

wrote-AllConnected :
    (name : Bytes) (flag : ℕ) (agents : List Agent)
    → AllConnected agents
    → AllConnected (map (wrote flag name) agents)
wrote-AllConnected name flag [] all = tt
wrote-AllConnected name flag (a ∷ agents) all = (all.0, wrote-AllConnected name flag agents all.1)

-- The agents after Connect.
abbrev pub connected : Agent → Agent
connected a = record a { conn = true; written = [] }

connect_all_lem :
    (dial : Bytes → Bool) (agents : List Agent)
    → ((addr : Bytes) → dial addr ≡ true)
    → (connect_all dial agents ≡ (map connected agents, true)) × AllConnected (map connected agents)
unfolding connect_all connect
connect_all_lem dial [] all = (refl, tt)
connect_all_lem dial (a ∷ agents) all =
    let rest = connect_all_lem dial agents all in (rw (all a.addr, rest.0) refl, (refl, rest.1))

no_agent_of : (agents : List Agent) → agents ≢ [] → no_agent agents ≡ false
no_agent_of [] h = absurd (h refl)
no_agent_of (a ∷ agents) h = refl

-- The packets of a list of names, in their order.
abbrev pub text_frames : ℕ → List Bytes → Bytes
text_frames flag [] = []
text_frames flag (name ∷ names) = frame_bytes ConnType.worker flag name ++ text_frames flag names

-- What a server reads of a worker that has just become ready.
abbrev pub greeting : Bytes → List Bytes → Bytes
greeting worker_name names =
    frame_bytes ConnType.worker Pdt.w_set_name worker_name ++ text_frames Pdt.w_add_func names

module _ {M : Type 0} where
  abbrev pub names_of : Table (Function M) → List Bytes
  names_of [] = []
  names_of ((name, function) ∷ t) = name ∷ names_of t

  abbrev pub AllShort : Table (Function M) → Type 0
  AllShort [] = Unit
  AllShort ((name, function) ∷ t) = IsShort name × AllShort t

  abbrev wrote_each : ℕ → Table (Function M) → Agent → Agent
  wrote_each flag [] a = a
  wrote_each flag ((name, function) ∷ t) a = wrote_each flag t (wrote flag name a)

  written-wrote_each :
      (flag : ℕ) (t : Table (Function M)) (a : Agent)
      → (wrote_each flag t a).written ≡ a.written ++ text_frames flag (names_of t)
  written-wrote_each flag [] a = sym (append-nil a.written)
  written-wrote_each flag ((name, function) ∷ t) a =
      written-wrote_each flag t (wrote flag name a) ∙ append_assoc a.written _ _

  broadcast_each_lem :
      (flag : ℕ) (t : Table (Function M)) (agents : List Agent)
      → IsFlag flag
      → AllShort t
      → AllConnected agents
      → broadcast_each flag t agents ≡ ok (map (wrote_each flag t) agents)
  unfolding broadcast_each
  broadcast_each_lem flag [] agents is h all = ap ok (map_id agents)
    where
      map_id : (xs : List Agent) → xs ≡ map (wrote_each flag []) xs
      map_id [] = refl
      map_id (x ∷ xs) = ap (λ ys. x ∷ ys) (map_id xs)
  broadcast_each_lem flag ((name, function) ∷ t) agents is h all =
      rw (msg_broadcast_lem name flag agents is h.0 all) (
        broadcast_each_lem flag t (map (wrote flag name) agents) is h.1
          (wrote-AllConnected name flag agents all)
        ∙ ap ok (map-map (wrote_each flag t) (wrote flag name) agents))

  -- The agent of a worker that is ready.
  abbrev pub greeted : Worker M → Agent → Agent
  greeted w a = wrote_each Pdt.w_add_func w.funcs (wrote Pdt.w_set_name w.worker_name (connected a))

  pub written-greeted :
      (w : Worker M) (a : Agent) → (greeted w a).written ≡ greeting w.worker_name (names_of w.funcs)
  written-greeted w a =
      written-wrote_each Pdt.w_add_func w.funcs (wrote Pdt.w_set_name w.worker_name (connected a))

  no_entry_of : (t : Table (Function M)) → t ≢ [] → no_entry t ≡ false
  no_entry_of [] h = absurd (h refl)
  no_entry_of (entry ∷ t) h = refl

  -- A worker that has a server and a function, and can reach every server, becomes ready, and each
  -- server is sent the worker's name and then the name of each function, and nothing else; if the
  -- names fit into packets.
  pub worker_ready-greeted :
      (dial : Bytes → Bool) (w : Worker M)
      → ((addr : Bytes) → dial addr ≡ true)
      → w.agents ≢ []
      → w.funcs ≢ []
      → IsShort w.worker_name
      → AllShort w.funcs
      → (worker_ready dial w
          ≡ ok (record w { agents = map (greeted w) w.agents; ready = true }, none))
        × ((a : Agent) → (greeted w a).written ≡ greeting w.worker_name (names_of w.funcs))
  unfolding worker_ready
  worker_ready-greeted dial w all agents funcs short names =
      let (dialled, open_all) = connect_all_lem dial w.agents all in
      let first = wrote Pdt.w_set_name w.worker_name in
      let named =
        msg_broadcast_lem w.worker_name Pdt.w_set_name (map connected w.agents) (inl refl) short
          open_all in
      let announced =
        broadcast_each_lem Pdt.w_add_func w.funcs (map first (map connected w.agents))
          (inr (inl refl)) names (wrote-AllConnected w.worker_name Pdt.w_set_name _ open_all) in
      let merged : map (wrote_each Pdt.w_add_func w.funcs) (map first (map connected w.agents))
          ≡ map (greeted w) w.agents =
        ap (map (wrote_each Pdt.w_add_func w.funcs)) (map-map first connected w.agents)
        ∙ map-map (wrote_each Pdt.w_add_func w.funcs) (λ a. first (connected a)) w.agents in
      (
        rw (no_agent_of w.agents agents, no_entry_of w.funcs funcs)
            (rw dialled (rw named (rw announced (rw merged refl)))),
        written-greeted w,
      )
