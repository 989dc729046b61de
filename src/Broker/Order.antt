-- ===== src/Broker/Order.antt =====
-- Requests from any handles and the rounds of the worker, in any order.
use radio_cat_rs.Base.{
  ℕ, zero, suc, ◌+◌, ◌%◌, ◌^◌, ◌≤◌, Bool, true, false, ◌≡◌, ◌≢◌, refl, sym, ap, ◌∙◌, subst, Option,
  none, some, List, [], ◌∷◌, ◌++◌, map, append_assoc, if◌then◌else◌, Option-cases, Bool-cases, inl,
  inr, arith,
}
use radio_cat_rs.Base.Bytes.{Bytes}
use radio_cat_rs.Client.{CatSession, CatClient}
use radio_cat_rs.Broker.{DispatchError, dispatch}
use radio_cat_rs.Broker.Worker.{
  Task, Work, wire, task, Job, Server, build, submit, submit_task, release_now_bypassing_queue,
  perform, serve_queue, serve, enqueue, warn, run_task,
}
use radio_cat_rs.Broker.Laws.{dispatch_answers}

pub data Act (S : Type 0) : Type 0 where
  submits : (gate : Option Bytes) (client_id : ℕ) (payload : Bytes) → Act S
  submits_task : (client_id : ℕ) (run : Task S) → Act S
  releases : (client_id : ℕ) (run : Task S) → Act S
  serves : Act S

-- How many of the acts put a job into the queue.
abbrev pub queued_by : {S : Type 0} → Bool → Act S → ℕ
queued_by has_lines (submits none client_id payload) = 1
queued_by has_lines (submits (some reason) client_id payload) = 0
queued_by has_lines (submits_task client_id run) = 1
queued_by has_lines (releases client_id run) = if has_lines then 0 else 1
queued_by has_lines serves = 0

unfoldable pub queued : {S : Type 0} → Bool → List (Act S) → ℕ
queued has_lines [] = 0
queued has_lines (act ∷ acts) = queued_by has_lines act + queued has_lines acts

-- The first `count` numbers of requests, from `from` on: words of 64 bits.
unfoldable pub numbers : ℕ → ℕ → List ℕ
numbers from zero = []
numbers from (suc count) = (from % 2 ^ 64) ∷ numbers (suc from) count

abbrev pub number : {S : Type 0} → Job S → ℕ
number job = job.request_id

abbrev pub reply_number : ℕ × Bytes → ℕ
reply_number reply = reply.0

-- The numbers of the requests that were answered by the worker, then of those that wait.
abbrev pub numbered : {C Code S : Type 0} → Server C Code S → List ℕ
numbered server = map reply_number server.replies ++ map number server.queue

module _ {C Code S E : Type 0} (same_code : Code → Code → Bool) (sessions : CatSession S E)
    (display : DispatchError E → Bytes) where
  unfoldable pub apply : Act S → Server C Code S → Server C Code S
  apply (submits gate client_id payload) server = (submit gate client_id payload server).0
  apply (submits_task client_id run) server = submit_task client_id run server
  apply (releases client_id run) server = (release_now_bypassing_queue client_id run server).0
  apply serves server = serve same_code sessions display server

  unfoldable pub run_acts : List (Act S) → Server C Code S → Server C Code S
  run_acts [] server = server
  run_acts (act ∷ acts) server = run_acts acts (apply act server)

map-append :
    {A B : Type 0} (f : A → B) (front back : List A)
    → map f (front ++ back) ≡ map f front ++ map f back
map-append f [] back = refl
map-append f (x ∷ front) back = ap (◌∷◌ (f x)) (map-append f front back)

numbers-append :
    (from count : ℕ)
    → numbers from (suc count) ≡ numbers from count ++ (((from + count) % 2 ^ 64) ∷ [])
unfolding numbers
numbers-append from zero = ground arith
numbers-append from (suc count) = ap (◌∷◌ (from % 2 ^ 64)) (
    numbers-append (suc from) count
    ∙ ap (λ (n : ℕ). numbers (suc from) count ++ ((n % 2 ^ 64) ∷ [])) (omega arith))

-- After `count` requests that were queued.
abbrev Counts : {C Code S : Type 0} → Bool → ℕ → Server C Code S → Type 0
Counts has_lines count server =
    (numbered server ≡ numbers 0 count)
    × (server.next_request_id ≡ count % 2 ^ 64)
    × (server.has_lines ≡ has_lines)
    × (server.warnings ≡ (if server.warned then 1 else 0))

enqueue-Counts :
    {C Code S : Type 0} (has_lines : Bool) (count client_id : ℕ) (work : Work S)
    (server : Server C Code S)
    → Counts has_lines count server
    → Counts has_lines (suc count) (enqueue client_id work server)
enqueue-Counts {S} has_lines count client_id work server (ids, next, lines, warned) =
    let job : Job S = record {
      client_id = client_id;
      request_id = server.next_request_id;
      work = work;
    } in
    (
      ap (λ (l : List ℕ). map reply_number server.replies ++ l)
            (map-append number server.queue (job ∷ []))
          ∙ sym (
              append_assoc (map reply_number server.replies) (map number server.queue)
                (server.next_request_id ∷ []))
          ∙ ap (λ (l : List ℕ). l ++ (server.next_request_id ∷ [])) ids
          ∙ ap (λ (n : ℕ). numbers 0 count ++ (n ∷ []))
              (next ∙ ap (λ (n : ℕ). n % 2 ^ 64) (omega arith))
          ∙ sym (numbers-append 0 count),
      omega (arith, next),
      lines,
      warned,
    )

warn-Counts :
    {C Code S : Type 0} (has_lines : Bool) (count : ℕ) (server : Server C Code S)
    → Counts has_lines count server
    → Counts has_lines count (warn server)
warn-Counts has_lines count server (ids, next, lines, warned) =
    (ground (arith, ids), ground (arith, next), ground (arith, lines), ground (arith, warned))

released :
    {C Code S : Type 0} (client_id : ℕ) (run : Task S) (server : Server C Code S)
    → server.has_lines ≡ true
    → (release_now_bypassing_queue client_id run server).0 ≡ record server {
      client = record (server.client) { session = (run_task run server.client.session).0 };
    }
unfolding release_now_bypassing_queue
released client_id run server lines = ground (arith, lines)

queued_release :
    {C Code S : Type 0} (client_id : ℕ) (run : Task S) (server : Server C Code S)
    → server.has_lines ≡ false
    → (release_now_bypassing_queue client_id run server).0
      ≡ enqueue client_id (task run) (warn server)
unfolding release_now_bypassing_queue
queued_release client_id run server lines = ground (arith, lines)

module _ {C Code S E : Type 0} (same_code : Code → Code → Bool) (sessions : CatSession S E)
    (refl_code : (code : Code) → same_code code code ≡ true)
    (display : DispatchError E → Bytes) where
  perform_answers :
      (work : Work S) (c : CatClient C Code S)
      → (perform same_code sessions display work c).1 ≢ none
  unfolding perform
  perform_answers (wire payload) c = elim (Option-cases (dispatch same_code sessions payload c).1) [
    | inl nothing ↦ absurd (dispatch_answers same_code sessions refl_code payload c nothing)
    | inr (result, answer) ↦ rw (answer, perform) (λ h. cc)
  ]
  perform_answers (task run) c = λ h. cc

  serve_queue-Counts :
      (has_lines : Bool) (count : ℕ) (queue : List (Job S)) (server : Server C Code S)
      → Counts has_lines count (record server { queue = queue })
      → Counts has_lines count (serve_queue same_code sessions display queue server)
  unfolding serve_queue
  serve_queue-Counts has_lines count [] server counts = counts
  serve_queue-Counts has_lines count (job ∷ queue) server (ids, next, lines, warned) =
      elim (Option-cases (perform same_code sessions display job.work server.client).1) [
        | inl nothing ↦ absurd (perform_answers job.work server.client nothing)
        | inr (reply, answer) ↦
            rw (answer, serve_queue)
              (
                ap (λ (l : List ℕ). l ++ map number queue)
                      (map-append reply_number server.replies ((job.request_id, reply) ∷ []))
                    ∙ append_assoc (map reply_number server.replies) (job.request_id ∷ [])
                        (map number queue)
                    ∙ ids,
                next,
                lines,
                warned,
              )
      ]

  apply-Counts :
      (has_lines : Bool) (count : ℕ) (act : Act S) (server : Server C Code S)
      → Counts has_lines count server
      → Counts has_lines
          (count + queued_by has_lines act)
          (apply same_code sessions display act server)
  unfolding apply submit
  apply-Counts has_lines count (submits none client_id payload) server counts =
      subst (λ (n : ℕ). Counts has_lines n (enqueue client_id (wire payload) server)) (omega arith)
        (enqueue-Counts has_lines count client_id (wire payload) server counts)
  apply-Counts has_lines count (submits (some reason) client_id payload) server counts =
      subst (λ (n : ℕ). Counts has_lines n server) (omega arith) counts
  apply-Counts has_lines count (submits_task client_id run) server counts =
      subst (λ (n : ℕ). Counts has_lines n (enqueue client_id (task run) server)) (omega arith)
        (enqueue-Counts has_lines count client_id (task run) server counts)
  apply-Counts true count (releases client_id run) server (ids, next, lines, warned) =
      let freed = record server {
        client = record (server.client) { session = (run_task run server.client.session).0 };
      } in
      let now : (release_now_bypassing_queue client_id run server).0 ≡ freed =
        released client_id run server lines in
      subst (Counts true (count + 0)) (sym now)
        (subst (λ (n : ℕ). Counts true n freed) (omega arith) (ids, next, lines, warned))
  apply-Counts false count (releases client_id run) server (ids, next, lines, warned) =
      let later : (release_now_bypassing_queue client_id run server).0
          ≡ enqueue client_id (task run) (warn server) =
        queued_release client_id run server lines in
      subst (Counts false (count + 1)) (sym later) (
        subst (λ (n : ℕ). Counts false n (enqueue client_id (task run) (warn server))) (omega arith)
          (enqueue-Counts false count client_id (task run) (warn server)
            (warn-Counts false count server (ids, next, lines, warned))))
  apply-Counts has_lines count serves server counts =
      subst (λ (n : ℕ). Counts has_lines n (serve same_code sessions display server)) (omega arith)
        (serve_queue-Counts has_lines count server.queue server counts)

  run_acts-Counts :
      (has_lines : Bool) (count : ℕ) (acts : List (Act S)) (server : Server C Code S)
      → Counts has_lines count server
      → Counts has_lines
          (count + queued has_lines acts)
          (run_acts same_code sessions display acts server)
  unfolding run_acts queued
  run_acts-Counts has_lines count [] server counts =
      subst (λ (n : ℕ). Counts has_lines n server) (omega arith) counts
  run_acts-Counts has_lines count (act ∷ acts) server counts =
      subst
        (λ (n : ℕ).
          Counts has_lines n (
            run_acts same_code sessions display acts (apply same_code sessions display act server)))
        (omega arith)
        (run_acts-Counts has_lines (count + queued_by has_lines act) acts
          (apply same_code sessions display act server)
          (apply-Counts has_lines count act server counts))

  -- Whatever comes from whatever handles, and whenever the worker gets to it: the requests that the worker
  -- has answered, and those that wait behind them, are the ones that were queued, each once and in
  -- the order in which they were; one that a gate refuses is not queued, nor is a release where there
  -- are release lines; and of releases that had to queue, at most one is warned of.
  pub run_acts_order :
      (client : CatClient C Code S) (has_lines : Bool) (acts : List (Act S))
      → let server = run_acts same_code sessions display acts (build client has_lines) in
        (numbered server ≡ numbers 0 (queued has_lines acts)) × (server.warnings ≤ 1)
  unfolding numbers
  run_acts_order client has_lines acts =
      let server = run_acts same_code sessions display acts (build client has_lines) in
      let (ids, next, lines, warned) =
        run_acts-Counts has_lines 0 acts (build client has_lines) (refl, refl, refl, refl) in
      (
        ids ∙ ap (numbers 0) (omega arith),
        elim (Bool-cases server.warned) [
          | inl once ↦ ground (arith, warned, once)
          | inr never ↦ ground (arith, warned, never)
        ],
      )
