-- ===== src/Engine/Memory.antt =====
-- A database in memory, with the operations as plain list functions: the interface can be met.
use mathlib.Core.List.Permᴰ
use fastdjango.Base.{
  ℕ, suc, ◌+◌, ◌≤◌, ◌≡◌, refl, false, inl, Bool-cases, List, [], ◌∷◌, none, codes, ◌==◌, nat_eq,
  text_eq, int_eq, eq_iff, any, keep, length, inr, arith, if◌then◌else◌, same_int,
}
use fastdjango.Base.Int.{ℤ, pos, negsuc}
use fastdjango.Errors.{error, overflow_error, Violation, integrity}
use fastdjango.Outcome.{ok, raise}
use fastdjango.Model.{UserModel, RefreshSessionModel}
use fastdjango.Engine.{
  Engine, IsRelational, admits_user, admits_session, consistent_sessions, first, is_integer,
  update_where,
}
use fastdjango.UnitOfWork.Scope.{IsHealthy}

pub record Tables : Type 0 where
  pub users : List UserModel
  pub refresh_sessions : List RefreshSessionModel

abbrev above : ℤ → ℕ
above (pos n) = suc n
above (negsuc n) = 0

-- A key above all that are taken.
unfoldable pub next_key : List UserModel → ℕ
next_key [] = 1
next_key (m ∷ rows) = above m.id + next_key rows

above-ne : (id : ℤ) (k : ℕ) → above id ≤ k → (id == pos k) ≡ false
unfolding same_int
above-ne (pos n) k h = ground arith
above-ne (negsuc n) k h = refl

next_key-fresh :
    (rows : List UserModel) (k : ℕ) → next_key rows ≤ k → any (λ r. r.id == pos k) rows ≡ false
unfolding next_key
next_key-fresh [] k h = refl
next_key-fresh (m ∷ rows) k h =
    ground (arith, next_key-fresh rows k, above-ne m.id k, eq_iff m.id (pos k))

abbrev pub duplicate : Violation
duplicate = record {
  constraint_name = none;
  message = codes "UNIQUE constraint failed: users.username";
}

abbrev pub memory : Engine Tables
memory = record {
  users = λ db. db.users;
  refresh_sessions = λ db. db.refresh_sessions;
  select_users = λ p db. keep p db.users;
  select_sessions = λ p db. keep p db.refresh_sessions;
  get_user = λ id db.
      if is_integer id
      then ok (first (keep (λ u. u.id == id) db.users))
      else raise (error overflow_error);
  insert_user = λ m db.
      if admits_user m db.users
      then (
        ok (record m { id = pos (next_key db.users) }),
        record db { users = record m { id = pos (next_key db.users) } ∷ db.users },
      )
      else (raise (integrity duplicate), db);
  write_user =
      λ m db. (ok tt, record db { users = update_where (λ r. r.id == m.id) (λ _. m) db.users });
  insert_session = λ m db.
      if admits_session m db.users db.refresh_sessions
      then (ok tt, record db { refresh_sessions = m ∷ db.refresh_sessions })
      else (raise (integrity duplicate), db);
  update_sessions = λ p f db.
      if consistent_sessions db.users (update_where p f db.refresh_sessions)
      then (
        ok (length (keep p db.refresh_sessions)),
        record db { refresh_sessions = update_where p f db.refresh_sessions },
      )
      else (raise (integrity duplicate), db);
  write_session = λ m db. (
    ok tt,
    record db { refresh_sessions = update_where (λ r. r.id == m.id) (λ _. m) db.refresh_sessions },
  );
  begin = λ db. none;
  commit = λ db. none;
  rollback = λ db. none;
  close = λ db. none;
}

pub memory-IsRelational : IsRelational memory
memory-IsRelational = record {
  select_users_lem = λ p db. Permᴰ.refl (keep p db.users);
  select_sessions_lem = λ p db. Permᴰ.refl (keep p db.refresh_sessions);
  get_user_lem = λ id db h. rw h;
  get_user-found = λ id db found h. elim (Bool-cases (is_integer id)) [
    | inl e ↦ ground arith
    | inr e ↦ ground arith
  ];
  insert_user-admitted = λ m db h. (
    pos (next_key db.users),
    next_key-fresh db.users (next_key db.users) (omega arith),
    rw h,
    rw h,
    rw h,
  );
  insert_user-refused = λ m db h. (duplicate, inr (inr (inr refl)), rw h, rw h, rw h);
  write_user_lem = λ m db h. (refl, refl, refl);
  insert_session-admitted = λ m db h. (rw h, rw h, rw h);
  insert_session-refused = λ m db h. (duplicate, rw h, rw h, rw h);
  update_sessions-admitted = λ p f db h. (rw h, rw h, rw h);
  update_sessions-refused = λ p f db h. (duplicate, rw h, rw h, rw h);
  write_session_lem = λ m db h. (refl, refl, refl);
}

pub memory-IsHealthy : IsHealthy memory
memory-IsHealthy = record {
  begins = λ db. refl;
  commits = λ db. refl;
  rolls_back = λ db. refl;
  closes = λ db. refl;
}
