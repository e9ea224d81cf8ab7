-- ===== src/Client/Socket/Accounted.antt =====
-- Where the requests of the client of src/client/socket-client.ts stand.
use pi_threads.Base.{
  ℕ, times, times-append, ◌+◌, ◌≡◌, refl, ap, ◌∙◌, ◌⊎◌, inl, inr, String, Bool, true, false, not,
  List, [], ◌∷◌, ◌++◌, Option, none, some, if◌then◌else◌, if_cases, ◌==◌, str_eq, arith,
}
use pi_threads.Value.{Value, get, is_text}
use pi_threads.Client.Socket.{
  Reply, Connection, unconnected, connecting, connected, Pending, SocketClient, closed_reply,
  request, reject_each, reject_waiting, open_transport, break_transport, without, calls_of,
  is_waiting, Found, keep, take_pending, safe_parse_daemon_line, handle_close, send_request, go_on,
  reply_of, settle_found, handle_payload, handle_line, Input, requests, proceeds, opens, closes,
  breaks, receives, step, run,
}

abbrev pub answered : List (ℕ × Reply) → List ℕ
answered [] = []
answered ((call, r) ∷ rest) = call ∷ answered rest

abbrev pub requested : List Input → List ℕ
requested [] = []
requested (requests call ∷ rest) = call ∷ requested rest
requested (_ ∷ rest) = requested rest

answered-append : (xs ys : List (ℕ × Reply)) → answered (xs ++ ys) ≡ answered xs ++ answered ys
answered-append [] ys = refl
answered-append ((call, r) ∷ xs) ys = ap (λ t. call ∷ t) (answered-append xs ys)

answered-reject_each : (r : Reply) (calls : List ℕ) → answered (reject_each r calls) ≡ calls
answered-reject_each r [] = refl
answered-reject_each r (call ∷ calls) = ap (λ t. call ∷ t) (answered-reject_each r calls)

times-answered :
    (k : ℕ) (xs ys : List (ℕ × Reply))
    → times k (answered (xs ++ ys)) ≡ times k (answered xs) + times k (answered ys)
times-answered k xs ys =
    ap (times k) (answered-append xs ys) ∙ times-append k (answered xs) (answered ys)

times-without :
    (k call : ℕ) (ks : List ℕ)
    → is_waiting call ks ≡ true
    → times k ks ≡ (if call == k then 1 else 0) + times k (without call ks)
times-without k call [] h = absurd (ground arith)
times-without k call (x ∷ xs) h = let rest = times-without k call xs in ground arith

calls-append : (ps qs : List Pending) → calls_of (ps ++ qs) ≡ calls_of ps ++ calls_of qs
calls-append [] qs = refl
calls-append (p ∷ ps) qs = ap (λ t. p.call ∷ t) (calls-append ps qs)

abbrev pub is_empty : List Pending → Bool
is_empty [] = true
is_empty (p ∷ ps) = false

-- What is known of the requests of a client: `made` are those that were made.
pub record IsAccounted (made : List ℕ) (c : SocketClient) : Type 0 where
  pub counted :
      (k : ℕ)
      → times k made
        ≡ times k (answered c.replies) + times k c.waiting + times k (calls_of c.pending)
  pub emptied : (c.closed ≡ false) ⊎ (is_empty c.pending ≡ true)

abbrev IsSplit : List Pending → Option Found → Type 0
IsSplit ps none = Unit
IsSplit ps (some f) =
    (is_empty ps ≡ false)
    × ((k : ℕ) → times k (calls_of ps) ≡ (if f.call == k then 1 else 0) + times k (calls_of f.rest))

keep-IsSplit :
    (p : Pending) (ps : List Pending) (o : Option Found)
    → IsSplit ps o
    → IsSplit (p ∷ ps) (keep p o)
keep-IsSplit p ps none h = tt
keep-IsSplit p ps (some f) (n, h) = (refl, λ k. let e = h k in omega arith)

take_pending-IsSplit : (id : String) (ps : List Pending) → IsSplit ps (take_pending id ps)
take_pending-IsSplit id [] = tt
take_pending-IsSplit id (p ∷ ps) =
    if_cases (IsSplit (p ∷ ps)) (str_eq p.id id) (λ _. (refl, λ k. refl))
      (λ _. keep-IsSplit p ps (take_pending id ps) (take_pending-IsSplit id ps))

request-IsAccounted :
    (made : List ℕ) (c : SocketClient) (call : ℕ)
    → IsAccounted made c
    → IsAccounted (call ∷ made) (request c call)
unfolding request
request-IsAccounted made c call v =
    if_cases (IsAccounted (call ∷ made)) c.closed
      (λ _. record {
        counted = λ k.
            let h = v.counted k in
            let e = times-answered k c.replies ((call, closed_reply) ∷ []) in ground arith;
        emptied = v.emptied;
      })
      (λ h. record {
        counted = λ k.
            let h = v.counted k in let e = times-append k c.waiting (call ∷ []) in ground arith;
        emptied = inl h;
      })

reject_waiting-IsAccounted :
    (made : List ℕ) (c : SocketClient) (r : Reply)
    → IsAccounted made c
    → IsAccounted made (reject_waiting c r)
reject_waiting-IsAccounted made c r v = record {
  counted = λ k.
      let h = v.counted k in
      let e = times-answered k c.replies (reject_each r c.waiting) in
      let w = ap (times k) (answered-reject_each r c.waiting) in omega arith;
  emptied = v.emptied;
}

open-IsAccounted :
    (made : List ℕ) (c : SocketClient) (connection : Connection)
    → IsAccounted made c
    → IsAccounted made (open_transport c connection)
open-IsAccounted made c unconnected v = v
open-IsAccounted made c connecting v =
    if_cases (IsAccounted made) c.closed (λ _. reject_waiting-IsAccounted made c _ v)
      (λ h. record { counted = v.counted; emptied = inl h })
open-IsAccounted made c connected v = v

break-IsAccounted :
    (made : List ℕ) (c : SocketClient) (connection : Connection) (r : Reply)
    → IsAccounted made c
    → IsAccounted made (break_transport c connection r)
break-IsAccounted made c unconnected r v = v
break-IsAccounted made c connecting r v = reject_waiting-IsAccounted made c r v
break-IsAccounted made c connected r v = v

handle_close-IsAccounted :
    (made : List ℕ) (c : SocketClient) → IsAccounted made c → IsAccounted made (handle_close c)
unfolding handle_close
handle_close-IsAccounted made c v =
    if_cases (IsAccounted made) c.closed (λ _. v)
      (λ _. record {
        counted = λ k.
            let h = v.counted k in
            let e = times-answered k c.replies (reject_each closed_reply (calls_of c.pending)) in
            let w = ap (times k) (answered-reject_each closed_reply (calls_of c.pending)) in
            omega arith;
        emptied = inr refl;
      })

module _ (show : ℕ → String) (text_of : Value → String) where
  send-IsAccounted :
      (made : List ℕ) (c : SocketClient) (call : ℕ) (thrown : Option Reply)
      → c.closed ≡ false
      → is_waiting call c.waiting ≡ true
      → IsAccounted made c
      → IsAccounted made
          (send_request show text_of (record c { waiting = without call c.waiting }) call thrown)
  send-IsAccounted made c call none o w v = record {
    counted = λ k.
        let h = v.counted k in
        let t = times-without k call c.waiting w in
        let e =
          ap (times k)
            (calls-append c.pending (record { id = show c.next_id; call = call } ∷ [])) in
        let a = times-append k (calls_of c.pending) (call ∷ []) in ground arith;
    emptied = inl o;
  }
  send-IsAccounted made c call (some r) o w v = record {
    counted = λ k.
        let h = v.counted k in
        let t = times-without k call c.waiting w in
        let e = times-answered k c.replies ((call, r) ∷ []) in ground arith;
    emptied = inl o;
  }

  go_on-IsAccounted :
      (made : List ℕ) (c : SocketClient) (call : ℕ) (connection : Connection)
      (thrown : Option Reply)
      → IsAccounted made c
      → IsAccounted made (go_on show text_of c call connection thrown)
  go_on-IsAccounted made c call unconnected thrown v = v
  go_on-IsAccounted made c call connecting thrown v = v
  go_on-IsAccounted made c call connected thrown v =
      if_cases (IsAccounted made) (not (is_waiting call c.waiting)) (λ _. v)
        (λ w.
          if_cases (IsAccounted made) c.closed
            (λ _. record {
              counted = λ k.
                  let h = v.counted k in
                  let t = times-without k call c.waiting (ground arith) in
                  let e = times-answered k c.replies ((call, closed_reply) ∷ []) in ground arith;
              emptied = v.emptied;
            })
            (λ o. send-IsAccounted made c call thrown o (ground arith) v))

  found-IsAccounted :
      (made : List ℕ) (c : SocketClient) (payload : Value) (o : Option Found)
      → IsSplit c.pending o
      → IsAccounted made c
      → IsAccounted made (settle_found show text_of c payload o)
  found-IsAccounted made c payload none s v = v
  found-IsAccounted made c payload (some f) (n, s) v = record {
    counted = λ k.
        let h = v.counted k in
        let t = s k in
        let e = times-answered k c.replies ((f.call, reply_of show text_of payload) ∷ []) in
        ground arith;
    emptied = let d = v.emptied in ground arith;
  }

  payload-IsAccounted :
      (made : List ℕ) (c : SocketClient) (o : Option Value)
      → IsAccounted made c
      → IsAccounted made (handle_payload show text_of c o)
  payload-IsAccounted made c none v = v
  payload-IsAccounted made c (some payload) v =
      let id = text_of (get "id" payload) in
      if_cases (IsAccounted made) (is_text (get "method" payload) "thread/event")
        (λ _. record { counted = v.counted; emptied = v.emptied })
        (λ _.
          found-IsAccounted made c payload (take_pending id c.pending)
            (take_pending-IsSplit id c.pending) v)

  -- The requests of an input, before those made earlier.
  abbrev made_by : Input → List ℕ → List ℕ
  made_by (requests call) made = call ∷ made
  made_by _ made = made

  step-IsAccounted :
      (made : List ℕ) (c : SocketClient) (input : Input)
      → IsAccounted made c
      → IsAccounted (made_by input made) (step show text_of c input)
  unfolding step handle_line
  step-IsAccounted made c (requests call) v = request-IsAccounted made c call v
  step-IsAccounted made c (proceeds call thrown) v =
      go_on-IsAccounted made c call c.connection thrown v
  step-IsAccounted made c opens v = open-IsAccounted made c c.connection v
  step-IsAccounted made c closes v = handle_close-IsAccounted made c v
  step-IsAccounted made c (breaks r) v = break-IsAccounted made c c.connection r v
  step-IsAccounted made c (receives parsed) v =
      payload-IsAccounted made c (safe_parse_daemon_line parsed) v

  abbrev all_made : List ℕ → List Input → List ℕ
  all_made made [] = made
  all_made made (input ∷ rest) = all_made (made_by input made) rest

  times-all_made :
      (k : ℕ) (made : List ℕ) (inputs : List Input)
      → times k (all_made made inputs) ≡ times k made + times k (requested inputs)
  times-all_made k made [] = omega arith
  times-all_made k made (requests call ∷ rest) =
      let h = times-all_made k (call ∷ made) rest in omega arith
  times-all_made k made (proceeds call thrown ∷ rest) = times-all_made k made rest
  times-all_made k made (opens ∷ rest) = times-all_made k made rest
  times-all_made k made (closes ∷ rest) = times-all_made k made rest
  times-all_made k made (breaks r ∷ rest) = times-all_made k made rest
  times-all_made k made (receives parsed ∷ rest) = times-all_made k made rest

  run-IsAccounted :
      (made : List ℕ) (c : SocketClient) (inputs : List Input)
      → IsAccounted made c
      → IsAccounted (all_made made inputs) (run show text_of c inputs)
  unfolding run
  run-IsAccounted made c [] v = v
  run-IsAccounted made c (input ∷ rest) v =
      run-IsAccounted (made_by input made) (step show text_of c input) rest
        (step-IsAccounted made c input v)

  -- From a client that has made no request yet, whatever the callers, the transport and the daemon do
  -- in any order: each request is answered, waits for the connection or for its answer, exactly one of
  -- these and once, and after the client has closed none waits for its answer any more.
  pub run-accounted :
      (c : SocketClient) (inputs : List Input) (k : ℕ)
      → IsAccounted [] c
      → let c' = run show text_of c inputs in
        (times k (requested inputs)
          ≡ times k (answered c'.replies) + times k c'.waiting + times k (calls_of c'.pending))
        × ((c'.closed ≡ false) ⊎ (is_empty c'.pending ≡ true))
  run-accounted c inputs k v =
      let w = run-IsAccounted [] c inputs v in
      let h = w.counted k in let t = times-all_made k [] inputs in (omega arith, w.emptied)
