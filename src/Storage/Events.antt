-- ===== src/Storage/Events.antt =====
-- The changes that an operation asks a store of internal/storage/store.go for, in their order.
use deb_s3_go.Base.{
  List, [], ◌∷◌, ◌++◌, append_assoc, append-nil, Bytes, Error, Result, ok, err, ◌≡◌, refl, sym, ap,
  ◌∙◌, ◌⊎◌, inl, inr, Option, none, some,
}
use deb_s3_go.Storage.Objects.{
  M, pure, raise, lift, continue, ◌>>=◌, wrapped, on_error, Store, PutOptions, CopyOptions,
}

-- A request that changes what is stored: a write, with its body and its options, a copy, or a
-- deletion; and, behind a request that the store answers with an error, that it was refused.
pub data Event : Type 0 where
  written : Bytes → Result Bytes → PutOptions → Event
  copied : Bytes → Bytes → CopyOptions → Event
  deleted : Bytes → Event
  refused : Event

abbrev pub Log : Type 0
Log = List Event

-- What an answer adds to the log.
abbrev pub refusal : {A : Type 0} → Result A → Log
refusal (ok a) = []
refusal (err e) = refused ∷ []

-- The store that also keeps the log of the requests made.
module _ {S : Type 0} where
  abbrev pub logged : {A : Type 0} → Event → M S A → M (S × Log) A
  logged event m x = ((m x.0).0, ((m x.0).1, x.1 ++ (event ∷ refusal (m x.0).0)))

  abbrev pub unlogged : {A : Type 0} → M S A → M (S × Log) A
  unlogged m x = ((m x.0).0, ((m x.0).1, x.1))

  abbrev logged_delete_if_match :
      Option (Bytes → Bytes → M S (Unit {0})) → Option (Bytes → Bytes → M (S × Log) (Unit {0}))
  logged_delete_if_match none = none
  logged_delete_if_match (some d) = some (λ key etag. logged (deleted key) (d key etag))

  abbrev pub traced : Store S → Store (S × Log)
  traced store = record {
    get = λ key. unlogged (store.get key);
    head = λ key. unlogged (store.head key);
    put = λ key body options. logged (written key body options) (store.put key body options);
    delete = λ key. logged (deleted key) (store.delete key);
    copy = λ from to options. logged (copied from to options) (store.copy from to options);
    list = λ prefix. unlogged (store.list prefix);
    delete_if_match = logged_delete_if_match store.delete_if_match;
  }

-- A run ends with a refusal only as an error.
abbrev pub Stops : {A : Type 0} → Result A → Log → Type 0
Stops r end = (end ≡ []) ⊎ ((end ≡ refused ∷ []) × (e : Error) × (r ≡ err e))

-- What was logged is the expected requests up to some point, and all of them on success. No request but
-- the last is refused, and one that is makes the run an error.
pub record Progress {A : Type 0} (r : Result A) (log log' expected : Log) : Type 0 where
  pub made : Log
  pub rest : Log
  pub end : Log
  pub grows : log' ≡ log ++ (made ++ end)
  pub in_order : expected ≡ made ++ rest
  pub stops : Stops r end
  pub complete : (a : A) → r ≡ ok a → rest ≡ []

abbrev pub Emits : {S A : Type 0} → M (S × Log) A → Log → Type 0
Emits {S} m expected = (x : S × Log) → Progress (m x).0 x.1 (m x).1.1 expected

pub wrapped-eq-ok :
    {A : Type 0} (f : Error → Error) (r : Result A) {a : A} → wrapped f r ≡ ok a → r ≡ ok a
wrapped-eq-ok f (ok a) h = h
wrapped-eq-ok f (err e) h = cc

Stops-ok : {A : Type 0} {a : A} (end : Log) → Stops (ok a) end → end ≡ []
Stops-ok end (inl h) = h
Stops-ok end (inr (h, e, k)) = cc

Stops-err :
    {A B : Type 0} {e : Error} {end : Log} → Stops {A = A} (err e) end → Stops {A = B} (err e) end
Stops-err (inl h) = inl h
Stops-err {e = e} (inr (h, e', k)) = inr (h, e, refl)

Stops-refusal : {A : Type 0} (r : Result A) → Stops r (refusal r)
Stops-refusal (ok a) = inl refl
Stops-refusal (err e) = inr (refl, e, refl)

Stops-wrapped :
    {A : Type 0} (f : Error → Error) (r : Result A) {end : Log}
    → Stops r end
    → Stops (wrapped f r) end
Stops-wrapped f r (inl h) = inl h
Stops-wrapped f r (inr (h, e, k)) = inr (h, f e, ap (λ q. wrapped f q) k)

appended :
    (log log' log'' made rest end first more : Log)
    → log' ≡ log ++ (made ++ end)
    → end ≡ []
    → first ≡ made ++ rest
    → rest ≡ []
    → log'' ≡ log' ++ more
    → log'' ≡ log ++ (first ++ more)
appended log log' log'' made rest end first more h e i j k =
    rw (k, h, e, i, j, append-nil) (append_assoc log made more)

module _ {S A : Type 0} where
  pub pure-Emits : (a : A) → Emits {S = S} (pure a) []
  pure-Emits a x = record {
    made = [];
    rest = [];
    end = [];
    grows = sym (append-nil _);
    in_order = refl;
    stops = inl refl;
    complete = λ b h. refl;
  }

  pub raise-Emits : (e : Error) (expected : Log) → Emits {S = S} {A = A} (raise e) expected
  raise-Emits e expected x = record {
    made = [];
    rest = expected;
    end = [];
    grows = sym (append-nil _);
    in_order = refl;
    stops = inl refl;
    complete = λ b h. cc;
  }

  pub logged-Emits : (event : Event) (m : M S A) → Emits (logged event m) (event ∷ [])
  logged-Emits event m x = record {
    made = event ∷ [];
    rest = [];
    end = refusal (m x.0).0;
    grows = refl;
    in_order = refl;
    stops = Stops-refusal (m x.0).0;
    complete = λ b h. refl;
  }

  pub on_error-Emits :
      (f : Error → Error) (m : M (S × Log) A) {expected : Log}
      → Emits m expected
      → Emits (on_error f m) expected
  on_error-Emits f m h x =
      let p = h x in
      record {
        made = p.made;
        rest = p.rest;
        end = p.end;
        grows = p.grows;
        in_order = p.in_order;
        stops = Stops-wrapped f (m x).0 p.stops;
        complete = λ a e. p.complete a (wrapped-eq-ok f (m x).0 e);
      }

module _ {S A B : Type 0} where
  continue-Progress :
      (r : Result A) (f : A → M (S × Log) B) (log : Log) (y : S × Log) {first next : Log}
      → Progress r log y.1 first
      → ((a : A) → Emits (f a) next)
      → Progress (continue r f y).0 log (continue r f y).1.1 (first ++ next)
  continue-Progress (err e) f log y {first} {next} p h = record {
    made = p.made;
    rest = p.rest ++ next;
    end = p.end;
    grows = p.grows;
    in_order = rw (p.in_order) (append_assoc p.made p.rest next);
    stops = Stops-err p.stops;
    complete = λ b e. cc;
  }
  continue-Progress (ok a) f log y {first} {next} p h =
      let q = h a y in
      record {
        made = first ++ q.made;
        rest = q.rest;
        end = q.end;
        grows =
            appended log y.1 _ p.made p.rest p.end first (q.made ++ q.end) p.grows
              (Stops-ok p.end p.stops) p.in_order (p.complete a refl) q.grows
            ∙ ap (λ more. log ++ more) (sym (append_assoc first q.made q.end));
        in_order = rw (q.in_order) (sym (append_assoc first q.made q.rest));
        stops = q.stops;
        complete = q.complete;
      }

  pub bind-Emits :
      (m : M (S × Log) A) (f : A → M (S × Log) B) {first next : Log}
      → Emits m first
      → ((a : A) → Emits (f a) next)
      → Emits (m >>= f) (first ++ next)
  bind-Emits m f h k x = continue-Progress (m x).0 f x.1 (m x).1 (h x) k

  pub lift-Emits :
      (r : Result A) (f : A → M (S × Log) B) {expected : Log}
      → ((a : A) → r ≡ ok a → Emits (f a) expected)
      → Emits (lift r >>= f) expected
  lift-Emits (ok a) f h x = h a refl x
  lift-Emits (err e) f {expected} h x = raise-Emits e expected x

module _ {S : Type 0} (store : Store S) (f : Error → Error) where
  pub put-Emits :
      (key : Bytes) (body : Result Bytes) (options : PutOptions)
      → Emits (on_error f ((traced store).put key body options)) (written key body options ∷ [])
  put-Emits key body options =
      on_error-Emits f (logged (written key body options) (store.put key body options))
        (logged-Emits (written key body options) (store.put key body options))

  pub delete-Emits :
      (key : Bytes) → Emits (on_error f ((traced store).delete key)) (deleted key ∷ [])
  delete-Emits key =
      on_error-Emits f (logged (deleted key) (store.delete key))
        (logged-Emits (deleted key) (store.delete key))
