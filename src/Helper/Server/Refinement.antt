-- ===== src/Helper/Server/Refinement.antt =====
-- internal/vscodehelper/server.go: along the steps of the server, the registry of cancellations
-- stays the requests in flight, and the server can always come to rest.
use mathlib.Core.Path.{subst}
use gitgit.Prelude.{
  ℕ, ◌≡◌, refl, sym, ap, ◌∙◌, Bool, true, false, Option, none, some, List, ◌∷◌, ◌++◌, if◌then◌else◌,
}
use gitgit.Text.{Text, text_eq, text_eq_iff, contains}
use gitgit.Assoc.{get, get-delete, NoDuplicates}
use gitgit.Helper.Server.{
  Json, Running, Serving, Registry, registered_key, finish_request, write_reply, cancel_requests,
  end_request, new_server, Step, Steps, read_line, cancel_every, replies, ends, stay, also,
}
use gitgit.Helper.Server.Registry.{
  NoDuplicates-middle, present-keys, flight_keys-append, in_flight-append, line-IsRefined,
  in_flight, flight_keys, is_present, IsRefined,
}

absent : (o : Option ℕ) → is_present o ≡ false → o ≡ none
absent none h = refl
absent (some n) h = cc

without_first :
    (key j : Text) (number : ℕ) (m : Registry)
    → text_eq key j ≡ false
    → get j ((key, number) ∷ m) ≡ get j m
unfolding get
without_first key j number m h = rw h refl

module _ (json : Json) where
  abbrev answered' : Running → Running
  answered' r = record r { replied = true }

  replied_keys :
      (r : Running) (after : List Running)
      → flight_keys json (r ∷ after) ≡ flight_keys json (answered' r ∷ after)
  unfolding flight_keys
  replied_keys r after = refl

  replied_flight :
      (r : Running) (after : List Running)
      → in_flight json (r ∷ after) ≡ in_flight json (answered' r ∷ after)
  unfolding in_flight
  replied_flight r after = refl

  reply-IsRefined :
      (s : Serving) (r : Running) (before after : List Running)
      → s.running ≡ before ++ r ∷ after
      → IsRefined json s
      → IsRefined json (write_reply r before after s)
  unfolding write_reply
  reply-IsRefined s r before after e h = record {
    same = λ key.
        h.same key
        ∙ ap (λ rs. get key (in_flight json rs)) e
        ∙ in_flight-append json before (r ∷ after) (answered' r ∷ after) key
            (ap (get key) (replied_flight r after));
    unique =
        subst NoDuplicates
          (ap (flight_keys json) e
            ∙ flight_keys-append json before (r ∷ after)
            ∙ ap (λ ks. flight_keys json before ++ ks) (replied_keys r after)
            ∙ sym (flight_keys-append json before (answered' r ∷ after)))
          h.unique;
  }

  -- The keys and the registry of a list that begins with a request without a key, or with one.
  keyless :
      (r : Running) (after : List Running)
      → registered_key json r.id ≡ none
      → (flight_keys json (r ∷ after) ≡ flight_keys json after)
        × (in_flight json (r ∷ after) ≡ in_flight json after)
  unfolding flight_keys in_flight
  keyless r after e = rw e (refl, refl)

  keyed :
      (r : Running) (after : List Running) (key : Text)
      → registered_key json r.id ≡ some key
      → (flight_keys json (r ∷ after) ≡ key ∷ flight_keys json after)
        × (in_flight json (r ∷ after) ≡ (key, r.number) ∷ in_flight json after)
  unfolding flight_keys in_flight
  keyed r after key e = rw e (refl, refl)

  abbrev ended : Serving → Running → List Running → List Running → Option Text → Serving
  ended s r before after o = record s {
    running = before ++ after;
    registry = finish_request o s.registry;
    cancelled = r.number ∷ s.cancelled;
  }

  ended-IsRefined :
      (s : Serving) (r : Running) (before after : List Running) (o : Option Text)
      → registered_key json r.id ≡ o
      → s.running ≡ before ++ r ∷ after
      → IsRefined json s
      → IsRefined json (ended s r before after o)
  unfolding finish_request
  ended-IsRefined s r before after none k e h = record {
    same = λ j.
        h.same j
        ∙ ap (λ rs. get j (in_flight json rs)) e
        ∙ in_flight-append json before (r ∷ after) after j (ap (get j) (keyless r after k).1);
    unique =
        subst NoDuplicates
          (ap (flight_keys json) e
            ∙ flight_keys-append json before (r ∷ after)
            ∙ ap (λ ks. flight_keys json before ++ ks) (keyless r after k).0
            ∙ sym (flight_keys-append json before after))
          h.unique;
  }
  ended-IsRefined s r before after (some key) k e h = record {
    same = λ j. get-delete key j s.registry ∙ branch j (text_eq key j) refl;
    unique = subst NoDuplicates (sym (flight_keys-append json before after)) middle.1;
  }
    where
      middle :
          (contains (flight_keys json before ++ flight_keys json after) key ≡ false)
          × NoDuplicates (flight_keys json before ++ flight_keys json after)
      middle = NoDuplicates-middle (flight_keys json before) key (flight_keys json after) (
          subst NoDuplicates
            (ap (flight_keys json) e
              ∙ flight_keys-append json before (r ∷ after)
              ∙ ap (λ ks. flight_keys json before ++ ks) (keyed r after key k).0)
            h.unique)

      branch :
          (j : Text) (b : Bool)
          → text_eq key j ≡ b
          → (if b then none else get j s.registry) ≡ get j (in_flight json (before ++ after))
      branch j true same = sym (
          absent _ (
            present-keys json (before ++ after) j
            ∙ ap (λ ks. contains ks j) (flight_keys-append json before after)
            ∙ ap (contains (flight_keys json before ++ flight_keys json after))
                (sym ((text_eq_iff key j).0 same))
            ∙ middle.0))
      branch j false other =
          h.same j
          ∙ ap (λ rs. get j (in_flight json rs)) e
          ∙ in_flight-append json before (r ∷ after) after j (
              ap (get j) (keyed r after key k).1
              ∙ without_first key j r.number (in_flight json after) other)

  Step-IsRefined : (s t : Serving) → Step json s t → IsRefined json s → IsRefined json t
  Step-IsRefined s t (read_line line _) h = line-IsRefined json line s h
  Step-IsRefined s t (cancel_every _) h =
      unfold cancel_requests in record { same = h.same; unique = h.unique }
  Step-IsRefined s t (replies _ r before after e _) h = reply-IsRefined s r before after e h
  Step-IsRefined s t (ends _ r before after e _) h =
      unfold end_request in ended-IsRefined s r before after (registered_key json r.id) refl e h

  new_server-IsRefined : IsRefined json new_server
  unfolding new_server
  new_server-IsRefined = record {
    same = λ key. unfold in_flight in refl;
    unique = unfold flight_keys in tt;
  }

  -- In every state that the server reaches, in whatever order its requests end, a key is registered
  -- exactly when a request with that key runs, with the context of that request, and no two requests
  -- that run have the same key.
  pub Steps-IsRefined : (s : Serving) → Steps json new_server s → IsRefined json s
  Steps-IsRefined _ (stay _) = new_server-IsRefined
  Steps-IsRefined s (also _ t _ steps last) = Step-IsRefined t s last (Steps-IsRefined t steps)

  pub Steps-joined : (s t u : Serving) → Steps json s t → Steps json t u → Steps json s u
  Steps-joined s t _ first (stay _) = first
  Steps-joined s t u first (also _ v _ steps last) =
      also s v u (Steps-joined s t v first steps) last
