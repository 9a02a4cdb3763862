-- ===== src/Helper/Server/Registry.antt =====
-- internal/vscodehelper/server.go: the registry of cancellations refines the requests in flight.
use gitgit.Prelude.{
  ℕ, ◌≡◌, refl, sym, ap, ◌∙◌, Bool, true, false, ◌||◌, Option, none, some, List, [], ◌∷◌, ◌++◌,
  if◌then◌else◌, arith,
}
use gitgit.Text.{Text, lit, text_eq, text_eq_iff, text_eq_refl, is_empty, contains, trim_space}
use gitgit.Assoc.{get, put, get-put, NoDuplicates}
use gitgit.Helper.Rpc.{Answer, answered, refused}
use gitgit.Helper.Server.{
  Json, Request, Running, Serving, Registry, registered_key, register_cancellation, start_request,
  receive_request, receive_line, decode_request, handle_cancel, cancel_key, running_of,
}

-- The abstract view: the keys of the requests that run, with their contexts.
abbrev with_key : Option Text → ℕ → Registry → Registry
with_key none number m = m
with_key (some key) number m = (key, number) ∷ m

abbrev key_list : Option Text → List Text → List Text
key_list none keys = keys
key_list (some key) keys = key ∷ keys

abbrev pub is_present : Option ℕ → Bool
is_present none = false
is_present (some n) = true

contains-both :
    (xs ys : List Text) (k : Text) → contains (xs ++ ys) k ≡ (contains xs k || contains ys k)
unfolding contains
contains-both [] ys k = refl
contains-both (x ∷ xs) ys k = ground (arith, contains-both xs ys k)

-- A list without duplicates stays one when an element is taken out, which is then not in it.
pub NoDuplicates-middle :
    (xs : List Text) (k : Text) (ys : List Text)
    → NoDuplicates (xs ++ k ∷ ys)
    → (contains (xs ++ ys) k ≡ false) × NoDuplicates (xs ++ ys)
unfolding contains
NoDuplicates-middle [] k ys h = (h.0, h.1)
NoDuplicates-middle (x ∷ xs) k ys h =
    let (fresh, rest) = NoDuplicates-middle xs k ys h.1 in
    (
      ground (
        arith,
        fresh,
        h.0,
        contains-both xs (k ∷ ys) x,
        text_eq_iff x k,
        text_eq_iff k x,
        text_eq_refl k,
      ),
      (ground (arith, h.0, contains-both xs (k ∷ ys) x, contains-both xs ys x), rest),
    )

present-with_key :
    (o : Option Text) (number : ℕ) (m : Registry) (ks : List Text) (key : Text)
    → is_present (get key m) ≡ contains ks key
    → is_present (get key (with_key o number m)) ≡ contains (key_list o ks) key
present-with_key none number m ks key h = h
present-with_key (some k) number m ks key h = unfold get contains in ground (arith, h)

get-with_key :
    (o : Option Text) (number : ℕ) (m m' : Registry) (key : Text)
    → get key m ≡ get key m'
    → get key (with_key o number m) ≡ get key (with_key o number m')
get-with_key none number m m' key h = h
get-with_key (some k) number m m' key h = unfold get in rw h refl

key_list-append :
    (o : Option Text) (xs ys : List Text) → key_list o xs ++ ys ≡ key_list o (xs ++ ys)
key_list-append none xs ys = refl
key_list-append (some k) xs ys = refl

module _ (json : Json) where
  unfoldable pub in_flight : List Running → Registry
  in_flight [] = []
  in_flight (r ∷ rs) = with_key (registered_key json r.id) r.number (in_flight rs)

  unfoldable pub flight_keys : List Running → List Text
  flight_keys [] = []
  flight_keys (r ∷ rs) = key_list (registered_key json r.id) (flight_keys rs)

  -- The registry holds what the requests in flight hold, and no two of them have the same key.
  pub record IsRefined (s : Serving) : Type 0 where
    pub same : (key : Text) → get key s.registry ≡ get key (in_flight s.running)
    pub unique : NoDuplicates (flight_keys s.running)

  pub present-keys :
      (rs : List Running) (key : Text)
      → is_present (get key (in_flight rs)) ≡ contains (flight_keys rs) key
  unfolding in_flight flight_keys
  present-keys [] key = unfold get contains in refl
  present-keys (r ∷ rs) key = present-with_key _ r.number _ _ key (present-keys rs key)

  pub flight_keys-append :
      (before after : List Running)
      → flight_keys (before ++ after) ≡ flight_keys before ++ flight_keys after
  unfolding flight_keys
  flight_keys-append [] after = refl
  flight_keys-append (r ∷ before) after =
      ap (key_list (registered_key json r.id)) (flight_keys-append before after)
      ∙ sym (key_list-append (registered_key json r.id) (flight_keys before) (flight_keys after))

  pub in_flight-append :
      (before rs rs' : List Running) (key : Text)
      → get key (in_flight rs) ≡ get key (in_flight rs')
      → get key (in_flight (before ++ rs)) ≡ get key (in_flight (before ++ rs'))
  unfolding in_flight
  in_flight-append [] rs rs' key h = h
  in_flight-append (r ∷ before) rs rs' key h =
      get-with_key _ r.number _ _ key (in_flight-append before rs rs' key h)

  -- A request starts.
  started-IsRefined :
      (r : Request) (o : Option Text) (s : Serving)
      → registered_key json r.id ≡ o
      → IsRefined s
      → IsRefined (start_request r (register_cancellation o s.next s.registry) s)
  unfolding start_request register_cancellation
  started-IsRefined r none s e h = record {
    same = λ key. unfold in_flight in rw e (h.same key);
    unique = unfold flight_keys in rw e h.unique;
  }
  started-IsRefined r (some k) s e h = go (get k s.registry) refl
    where
      go :
          (o : Option ℕ)
          → get k s.registry ≡ o
          → IsRefined
              (start_request r (elim o [ some _ ↦ none | none ↦ some (put k s.next s.registry) ]) s)
      go (some n) f = record { same = h.same; unique = h.unique }
      go none f = record {
        same = λ key.
            get-put k key s.next s.registry
            ∙ ap (λ found. if text_eq k key then some s.next else found) (h.same key)
            ∙ front key;
        unique = unfold flight_keys in rw e (fresh, h.unique);
      }
        where
          front :
              (key : Text)
              → (if text_eq k key then some s.next else get key (in_flight s.running))
                ≡ get key (in_flight (running_of s.next r.id ∷ s.running))
          front key = unfold in_flight get in rw e refl

          fresh : contains (flight_keys s.running) k ≡ false
          fresh = sym (present-keys s.running k) ∙ ap is_present (sym (h.same k) ∙ f)

  received-IsRefined :
      (a : Answer Request) (s : Serving) → IsRefined s → IsRefined (receive_request json a s)
  unfolding receive_request
  received-IsRefined (refused e) s h = record { same = h.same; unique = h.unique }
  received-IsRefined (answered r) s h = go (text_eq r.method (lit "$/cancelRequest"))
    where
      go :
          (b : Bool)
          → IsRefined (
              if b
              then record s {
                cancelled =
                    handle_cancel
                      (cancel_key json
                        (if is_empty r.params then none else json.decode_cancel r.params))
                      s.registry
                      s.cancelled;
              }
              else start_request r
                  (register_cancellation (registered_key json r.id) s.next s.registry)
                  s)
      go true = record { same = h.same; unique = h.unique }
      go false = started-IsRefined r (registered_key json r.id) s refl h

  pub line-IsRefined :
      (line : Text) (s : Serving) → IsRefined s → IsRefined (receive_line json line s)
  unfolding receive_line
  line-IsRefined line s h = go (is_empty (trim_space line))
    where
      go :
          (b : Bool)
          → IsRefined
              (if b then s else receive_request json (decode_request json (trim_space line)) s)
      go true = h
      go false = received-IsRefined (decode_request json (trim_space line)) s h
