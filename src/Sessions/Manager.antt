-- ===== src/Sessions/Manager.antt =====
-- `SessionManager` (src/task/session/session_manager.h). The mutex makes each function one step. The
-- hash map is an association list; nothing here depends on its order.
use Prim.Native.String.{◌++◌ as append}
use rl_aiserver.Common.{
  ℕ, ◌+◌, ◌%◌, ◌^◌, String, str_eq, Bool, not, ◌&&◌, ◌||◌, List, [], ◌∷◌, map, Option, none, some,
  ◌==◌, if◌then◌else◌,
}
use rl_aiserver.Common.Int.{ℤ, pos, add_ℤ, ltb_ℤ, leb_ℤ}
use rl_aiserver.Command.Types.{SessionPhase, phase_number, phase_open}

-- The fields of a session that the manager reads.
pub record Stored : Type 0 where
  pub session_id : String
  pub phase : SessionPhase
  pub last_activity : ℤ

pub record Manager : Type 0 where
  pub sessions : List (String × Stored)
  pub next_session_id : ℕ

-- `ClientActivitySnapshot`.
pub record Snapshot : Type 0 where
  pub active_count : ℕ
  pub recent_count : ℕ
  pub latest_activity : ℤ

-- `find`.
unfoldable pub find : List (String × Stored) → String → Option Stored
find [] id = none
find (x ∷ xs) id = let rest = find xs id in if str_eq x.0 id then some x.1 else rest

-- `operator[]` and an assignment.
unfoldable pub put : List (String × Stored) → String → Stored → List (String × Stored)
put [] id v = (id, v) ∷ []
put (x ∷ xs) id v = let rest = put xs id v in if str_eq x.0 id then (id, v) ∷ xs else x ∷ rest

-- `erase`.
unfoldable pub remove : List (String × Stored) → String → List (String × Stored)
remove [] id = []
remove (x ∷ xs) id = let rest = remove xs id in if str_eq x.0 id then xs else x ∷ rest

abbrev pub is_closed : SessionPhase → Bool
is_closed p = phase_number p == 6

abbrev pub max_ℤ : ℤ → ℤ → ℤ
max_ℤ a b = if ltb_ℤ a b then b else a

-- The lease of a session has not run out: `now - activity <= lease`.
abbrev pub is_recent : Stored → ℤ → ℤ → Bool
is_recent s now lease =
    leb_ℤ (pos 0) lease
    && ltb_ℤ (pos 0) s.last_activity
    && leb_ℤ s.last_activity now
    && leb_ℤ now (add_ℤ s.last_activity lease)

unfoldable pub count_where : (Stored → Bool) → List (String × Stored) → ℕ
count_where p [] = 0
count_where p (x ∷ xs) = (if p x.1 then 1 else 0) + count_where p xs

-- `GetActiveSessionCount`.
abbrev pub get_active_session_count : Manager → ℕ
get_active_session_count m = count_where (λ s. not (is_closed s.phase)) m.sessions

-- `GetActiveEpisodeCount`.
abbrev pub get_active_episode_count : Manager → ℕ
get_active_episode_count m =
    count_where (λ s. (phase_number s.phase == 3) || (phase_number s.phase == 4)) m.sessions

-- One turn of the loop of `GetClientActivitySnapshot`.
abbrev pub look : Bool → Bool → ℤ → Snapshot → Snapshot
look closed recent activity t = if closed then t else record {
  active_count = t.active_count + 1;
  recent_count = if recent then t.recent_count + 1 else t.recent_count;
  latest_activity = max_ℤ t.latest_activity activity;
}

unfoldable pub snapshot_loop : List (String × Stored) → ℤ → ℤ → Snapshot → Snapshot
snapshot_loop [] now lease t = t
snapshot_loop (x ∷ xs) now lease t =
    snapshot_loop xs now lease
      (look (is_closed x.1.phase) (is_recent x.1 now lease) x.1.last_activity t)

-- `GetClientActivitySnapshot`.
unfoldable pub get_client_activity_snapshot : Manager → ℤ → ℤ → Snapshot
get_client_activity_snapshot m now lease =
    snapshot_loop m.sessions now lease
      (record { active_count = 0; recent_count = 0; latest_activity = pos 0 })

-- `GetSession`.
abbrev pub get_session : Manager → String → Option Stored
get_session m id = find m.sessions id

-- `GetSessionIds`.
abbrev pub get_session_ids : Manager → List String
get_session_ids m = map (λ x. x.0) m.sessions

-- `DestroySession`.
unfoldable pub destroy_session : Manager → String → Manager
destroy_session m id = record m { sessions = remove m.sessions id }

-- `CreateSession`; `to_string` is `std::to_string`.
module _ (to_string : ℕ → String) where
  abbrev pub name : ℕ → String
  name n = append "session-" (to_string n)

  abbrev pub new_session : Manager → Stored
  new_session m = record {
    session_id = name m.next_session_id;
    phase = phase_open;
    last_activity = pos 0;
  }

  unfoldable pub create_session : Manager → Manager × String
  create_session m = (
    record {
      sessions = put m.sessions (name m.next_session_id) (new_session m);
      next_session_id = (m.next_session_id + 1) % 2 ^ 64;
    },
    name m.next_session_id,
  )
