-- ===== src/Redis/Laws.antt =====
-- Laws of the actions, for proofs that keep them shut.
use afl.Base.{◌≡◌, refl, ap, ◌∙◌, Option, none, some}
use afl.Base.Str.{Str, str_eq_refl}
use afl.Except.{ok}
use afl.Container.Map
use afl.Redis.Store.{Entry, Db, get, get_from, get_create, pure, store, ◌>>=◌}

module _ {T : Type 0} (cast : Entry → Option T) (k : Str) (d : Db) where
  -- `get` after the look-up is known.
  pub get_eq : (o : Option Entry) → Map.find k d ≡ o → get cast k d ≡ get_from cast o d
  unfolding get
  get_eq o e = ap (λ x. get_from cast x d) e

  pub get_found :
      (e : Entry) (t : T)
      → Map.find k d ≡ some e
      → cast e ≡ some t
      → get cast k d ≡ (ok (some t), d)
  unfolding pure
  get_found e t h c = get_eq (some e) h ∙ rw c refl

  pub get_missing : Map.find k d ≡ none → get cast k d ≡ (ok none, d)
  unfolding pure
  get_missing h = get_eq none h

  pub create_found :
      (wrap : T → Entry) (empty : T) (e : Entry) (t : T)
      → Map.find k d ≡ some e
      → cast e ≡ some t
      → get_create cast wrap empty k d ≡ (ok t, d)
  unfolding get_create ◌>>=◌ pure
  create_found wrap empty e t h c = rw (get_found e t h c, ◌>>=◌) refl

  pub create_new :
      (wrap : T → Entry) (empty : T)
      → Map.find k d ≡ none
      → get_create cast wrap empty k d ≡ (ok empty, Map.insert k (wrap empty) d)
  unfolding get_create ◌>>=◌ pure store
  create_new wrap empty h = rw (get_missing h, ◌>>=◌) refl

pub find-insert_self : (k : Str) (e : Entry) (d : Db) → Map.find k (Map.insert k e d) ≡ some e
find-insert_self k e d = Map.find-insert k k e d ∙ rw (str_eq_refl k) refl

pub find-erase_self : (k : Str) (d : Db) → Map.find k (Map.erase k d) ≡ none
find-erase_self k d = Map.find-erase k k d ∙ rw (str_eq_refl k) refl
