-- ===== src/Tests/Races.antt =====
-- Three rotations of the token of the fixture's session race.
use fastdjango.Base.{◌≡◌, refl, some, none, [], ◌∷◌, codes, same_text}
use fastdjango.Outcome.{ok}
use fastdjango.Model.{UserModel, ReplaceRefreshSessionTokenDto}
use fastdjango.Engine.{update_where}
use fastdjango.Engine.Memory.{memory, memory-IsRelational}
use fastdjango.UserRepository.{user_from_model}
use fastdjango.SessionRepository.{is_expected, replaced, refresh_session_from_model}
use fastdjango.SessionRepository.Race.{contend, contend_lem}
use fastdjango.Clock.{at_utc}
use fastdjango.Tests.Fixtures.{session, tables}
use fastdjango.Tests.Refreshing.{tables-IsConsistent}

abbrev winner : ReplaceRefreshSessionTokenDto
winner = record {
  session_id = 3;
  expected_refresh_token_hash = codes "htoken";
  refresh_token_hash = codes "hone";
  last_used_at = at_utc 7;
  rotation_counter = 1;
}

abbrev loser : ReplaceRefreshSessionTokenDto
loser = record winner { refresh_token_hash = codes "htwo"; last_used_at = at_utc 8 }

contend_lem_example :
    (u : UserModel) × ((contend memory (winner ∷ loser ∷ loser ∷ []) tables).0
      ≡ ok (some (refresh_session_from_model (replaced winner session) (user_from_model u)))
        ∷ ok none
        ∷ ok none
        ∷ [])
    × (memory.users (contend memory (winner ∷ loser ∷ loser ∷ []) tables).1 ≡ tables.users)
    × (memory.refresh_sessions (contend memory (winner ∷ loser ∷ loser ∷ []) tables).1
        ≡ update_where (is_expected winner) (replaced winner) tables.refresh_sessions)
unfolding same_text
contend_lem_example =
    contend_lem memory memory-IsRelational (codes "htoken") session winner (loser ∷ loser ∷ [])
      tables tables-IsConsistent refl refl refl (refl, (refl, (refl, tt)))
