-- ===== src/Transport/Router/Owned.antt =====
-- A connection leaves no subscription behind.
use text.Mathlib.Text.{starts_with}
use pi_threads.Base.{
  ◌≡◌, refl, sym, ap, ◌∙◌, String, Bool, true, false, not, List, [], ◌∷◌, ◌++◌, Option,
  if◌then◌else◌, str_eq, filter, any, arith, if_cases, eq_iff,
}
use pi_threads.Value.{Value}
use pi_threads.Protocol.Errors.{Result, ok, err}
use pi_threads.Protocol.JsonRpc.{JsonRpcRequest, checked_request, normalize_params}
use pi_threads.Transport.Router.{
  JsonRpcConnection, write, close, respond, subscribed, unsubscribed, dispatch, handle_request,
  handle_line, Step, line, answer, closes, step, run, is_subscribe,
}

-- What the service serves for a connection is what the connection has on its list; a closed one has
-- nothing.
pub record Owned (closed : Bool) (subscriptions live : List String) : Type 0 where
  pub same : live ≡ subscriptions
  pub left : (if closed then [] else live) ≡ live

abbrev pub IsOwned : JsonRpcConnection → Type 0
IsOwned c = Owned c.closed c.subscriptions c.live

any_self : (x : String) (xs : List String) → any (λ s. str_eq s x) (x ∷ xs) ≡ true
any_self x xs = let same = eq_iff x x in ground arith

filter_listed :
    (all xs : List String)
    → ((x : String) → any (λ s. str_eq s x) xs ≡ true → any (λ s. str_eq s x) all ≡ true)
    → filter (λ id. not (any (λ s. str_eq s id) all)) xs ≡ []
filter_listed all [] h = refl
filter_listed all (x ∷ xs) h =
    let first = h x (any_self x xs) in
    let rest = filter_listed all xs (λ y e. h y (ground arith)) in ground arith

filter_absent :
    (id : String) (xs : List String)
    → any (λ s. str_eq s id) xs ≡ false
    → filter (λ s. not (str_eq s id)) xs ≡ xs
filter_absent id [] h = refl
filter_absent id (x ∷ xs) h = let rest = filter_absent id xs in ground arith

write-IsOwned : (c : JsonRpcConnection) (v : Value) → IsOwned c → IsOwned (write c v)
write-IsOwned c v o = ground arith

close-IsOwned : (c : JsonRpcConnection) → IsOwned c → IsOwned (close c)
unfolding close
close-IsOwned c o =
    let gone = filter_listed c.subscriptions c.subscriptions (λ x e. e) in
    let all = ap (filter (λ id. not (any (λ s. str_eq s id) c.subscriptions))) o.same ∙ gone in
    record { same = all; left = sym all }

respond-IsOwned :
    (c : JsonRpcConnection) (id : Value) (r : Result Value) → IsOwned c → IsOwned (respond c id r)
respond-IsOwned c id (ok result) o = write-IsOwned c _ o
respond-IsOwned c id (err error) o = write-IsOwned c _ o

subscribed-IsOwned :
    (c : JsonRpcConnection) (id : Value) (r : Result String)
    → c.closed ≡ false
    → IsOwned c
    → IsOwned (subscribed c id r)
subscribed-IsOwned c id (err error) e o = write-IsOwned c _ o
subscribed-IsOwned c id (ok s) e o =
    let same = ap (λ l. l ++ s ∷ []) o.same in
    write-IsOwned (record c { subscriptions = c.subscriptions ++ s ∷ []; live = c.live ++ s ∷ [] })
      _ (record { same = same; left = ground arith })

unsubscribed-IsOwned :
    (c : JsonRpcConnection) (id : Value) (s : String)
    → c.closed ≡ false
    → IsOwned c
    → IsOwned (unsubscribed c id s)
unsubscribed-IsOwned c id s e o =
    if_cases IsOwned (str_eq s "") (λ _. write-IsOwned c _ o)
      (λ _.
        write-IsOwned
          (record c {
            subscriptions = filter (λ t. not (str_eq t s)) c.subscriptions;
            live =
                if any (λ t. str_eq t s) c.subscriptions
                then filter (λ t. not (str_eq t s)) c.live
                else c.live;
          })
          _
          (record {
            same = same (any (λ t. str_eq t s) c.subscriptions) refl;
            left = ground arith;
          }))
  where
    same :
        (listed : Bool)
        → any (λ t. str_eq t s) c.subscriptions ≡ listed
        → (if listed then filter (λ t. not (str_eq t s)) c.live else c.live)
          ≡ filter (λ t. not (str_eq t s)) c.subscriptions
    same true h = ap (filter (λ t. not (str_eq t s))) o.same
    same false h = o.same ∙ sym (filter_absent s c.subscriptions h)

close-closed : (c : JsonRpcConnection) → (close c).closed ≡ true
unfolding close
close-closed c = refl

module _ (parse : String → Option Value) (string_of : Value → String) where
  dispatch-IsOwned :
      (c : JsonRpcConnection) (request : JsonRpcRequest) (subscribe : Value → Result String)
      (params : Result Value)
      → c.closed ≡ false
      → IsOwned c
      → IsOwned (dispatch parse string_of c request subscribe params)
  dispatch-IsOwned c request subscribe (err error) e o = write-IsOwned c _ o
  dispatch-IsOwned c request subscribe (ok params) e o =
      if_cases IsOwned (is_subscribe request.method) (λ _. subscribed-IsOwned c request.id _ e o)
        (λ _.
          if_cases IsOwned (starts_with request.method "unsubscribe/")
            (λ _. unsubscribed-IsOwned c request.id _ e o) (λ _. ground arith))

  request-IsOwned :
      (c : JsonRpcConnection) (subscribe : Value → Result String) (r : Result JsonRpcRequest)
      → c.closed ≡ false
      → IsOwned c
      → IsOwned (handle_request parse string_of c subscribe r)
  request-IsOwned c subscribe (err error) e o = write-IsOwned c _ o
  request-IsOwned c subscribe (ok request) e o =
      dispatch-IsOwned c request subscribe (normalize_params request.params) e o

  step-IsOwned : (c : JsonRpcConnection) (s : Step) → IsOwned c → IsOwned (step parse string_of c s)
  unfolding step handle_line
  step-IsOwned c (line text subscribe) o =
      if_cases IsOwned c.closed (λ _. o)
        (λ still_open. request-IsOwned c subscribe (checked_request (parse text)) still_open o)
  step-IsOwned c (answer request result) o = respond-IsOwned c request.id result o
  step-IsOwned c closes o = close-IsOwned c o

  respond-closed :
      (c : JsonRpcConnection) (id : Value) (r : Result Value)
      → c.closed ≡ true
      → (respond c id r).closed ≡ true
  respond-closed c id (ok result) e = ground arith
  respond-closed c id (err error) e = ground arith

  step-closed :
      (c : JsonRpcConnection) (s : Step)
      → c.closed ≡ true
      → (step parse string_of c s).closed ≡ true
  unfolding step handle_line close
  step-closed c (line text subscribe) e =
      if_cases {A = JsonRpcConnection} (λ q. q.closed ≡ true) c.closed (λ _. e)
        (λ f. absurd (ground arith))
  step-closed c (answer request result) e = respond-closed c request.id result e
  step-closed c closes e = refl

  still_closed :
      (c : JsonRpcConnection) (ss : List Step)
      → IsOwned c
      → c.closed ≡ true
      → (run parse string_of c ss).live ≡ []
  unfolding run
  still_closed c [] o e = let left = o.left in ground arith
  still_closed c (s ∷ ss) o e =
      still_closed (step parse string_of c s) ss (step-IsOwned c s o) (step-closed c s e)

  run-IsOwned :
      (c : JsonRpcConnection) (ss : List Step) → IsOwned c → IsOwned (run parse string_of c ss)
  unfolding run
  run-IsOwned c [] o = o
  run-IsOwned c (s ∷ ss) o = run-IsOwned (step parse string_of c s) ss (step-IsOwned c s o)

  -- Once a connection has closed, after any requests and answers, the service serves none of its
  -- subscriptions any more, and requests that come later do not change that.
  pub run-closes :
      (c : JsonRpcConnection) (before after : List Step)
      → IsOwned c
      → (run parse string_of (close (run parse string_of c before)) after).live ≡ []
  run-closes c before after o =
      let q = run parse string_of c before in
      still_closed (close q) after (close-IsOwned q (run-IsOwned c before o)) (close-closed q)
