-- ===== src/SessionFactory/Lifecycle.antt =====
-- The life of the cached engine, over any sequence of sessions and disposals.
use fastdjango.Base.{ℕ, ◌+◌, ◌≡◌, refl, sym, ◌∙◌, ap, Option, none, some, length, arith}
use fastdjango.Errors.{Exception}
use fastdjango.SessionFactory.{
  FactoryState, new_factory, with_factory, dispose_engine, dispose_of, open_session, dispose,
}

-- What the application does with its factory.
pub data Reachable : FactoryState → Type 0 where
  start : Reachable new_factory
  opens : (f : FactoryState) → Reachable f → Reachable (open_session f).1
  disposes :
      (fails : ℕ → Option Exception) (f : FactoryState)
      → Reachable f
      → Reachable (dispose fails f).1

abbrev pub open_engines : Option ℕ → ℕ
open_engines none = 0
open_engines (some engine) = 1

-- The two cached fields agree, and every engine created is either the cached one or disposed of.
pub record IsBalanced (f : FactoryState) : Type 0 where
  pub bound : f.session_factory ≡ f.engine
  pub counted : f.created ≡ length f.disposed + open_engines f.engine

open_session-IsBalanced : (f : FactoryState) → IsBalanced f → IsBalanced (open_session f).1
unfolding open_session
open_session-IsBalanced f b = go f.session_factory refl
  where
    go : (cached : Option ℕ) → f.session_factory ≡ cached → IsBalanced (with_factory f cached).1
    go none e = record {
      bound = refl;
      counted =
          let empty : open_engines f.engine ≡ 0 = ap open_engines (sym b.bound ∙ e) in
          omega (arith, b.counted, empty);
    }
    go (some engine) e = b

dispose_engine-IsBalanced :
    (f : FactoryState) (engine : ℕ) (failed : Option Exception)
    → f.engine ≡ some engine
    → IsBalanced f
    → IsBalanced (dispose_engine f engine failed).1
dispose_engine-IsBalanced f engine (some e) cached b = b
dispose_engine-IsBalanced f engine none cached b = record {
  bound = refl;
  counted =
      let full : open_engines f.engine ≡ 1 = ap open_engines cached in
      omega (arith, b.counted, full);
}

dispose-IsBalanced :
    (fails : ℕ → Option Exception) (f : FactoryState)
    → IsBalanced f
    → IsBalanced (dispose fails f).1
unfolding dispose
dispose-IsBalanced fails f b = go f.engine refl
  where
    go : (cached : Option ℕ) → f.engine ≡ cached → IsBalanced (dispose_of fails f cached).1
    go none e = b
    go (some engine) e = dispose_engine-IsBalanced f engine (fails engine) e b

-- However sessions are opened and the factory is disposed of, also where disposing raises, the cached session factory belongs to the
-- cached engine, and no engine is lost: as many were created as were disposed of or are cached.
pub Reachable-IsBalanced : (f : FactoryState) → Reachable f → IsBalanced f
Reachable-IsBalanced f start = record { bound = refl; counted = refl }
Reachable-IsBalanced f (opens g r) = open_session-IsBalanced g (Reachable-IsBalanced g r)
Reachable-IsBalanced f (disposes fails g r) = dispose-IsBalanced fails g (Reachable-IsBalanced g r)
