-- ===== src/Ipc/Hosting/State.antt =====
-- internal/ipc/methods_host.go: the state of the handlers and what runs in the background.
use open_friend_mc.Prelude.{
  ℕ, zero, suc, ◌≡◌, refl, arith, Bool, true, ◌&&◌, List, [], ◌∷◌, ◌==◌, comparable_nat,
  if◌then◌else◌, String,
}
use open_friend_mc.Prelude.Text.{Text}

-- What runs in the background.
pub data Handle : Type 0 where
  sig pm bc jm : ℕ → Handle

-- The fields of `hostState`.
pub record HostState : Type 0 where
  pub running : Bool
  pub target : Text
  pub bypass_used : Bool
  pub host_handles : List Handle
  pub join_running : Bool
  pub join_peer : Text
  pub join_listen : Text
  pub join_handles : List Handle

pub data Note : Type 0 where
  host_started : Text → Bool → Note
  host_stopped : Text → Note
  join_started : Text → ℕ → Text → Note
  join_stopped : Text → Note

-- `current_status` is that of the presence watch; `posted_online` counts the posts of `hostStop`.
pub record World : Type 0 where
  pub host : HostState
  pub current_status : String
  pub live : List Handle
  pub next_handle : ℕ
  pub notes : List Note
  pub posted_online : ℕ

pub data RpcError : Type 0 where
  not_authenticated invalid_params already_running api_failure not_found listen_failed : RpcError

abbrev kind : Handle → ℕ
kind (sig n) = 0
kind (pm n) = 1
kind (bc n) = 2
kind (jm n) = 3

abbrev pub number : Handle → ℕ
number (sig n) = n
number (pm n) = n
number (bc n) = n
number (jm n) = n

unfoldable pub same_handle : Handle → Handle → Bool
same_handle g h = (kind g == kind h) && (number g == number h)

rebuild : ℕ → ℕ → Handle
rebuild zero n = sig n
rebuild (suc zero) n = pm n
rebuild (suc (suc zero)) n = bc n
rebuild (suc (suc (suc k))) n = jm n

rebuild-kind : (h : Handle) → rebuild (kind h) (number h) ≡ h
unfolding rebuild
rebuild-kind (sig n) = refl
rebuild-kind (pm n) = refl
rebuild-kind (bc n) = refl
rebuild-kind (jm n) = refl

pub same_handle→eq : (g h : Handle) → same_handle g h ≡ true → g ≡ h
unfolding same_handle
same_handle→eq g h e =
    let same_kind : kind g ≡ kind h = ground arith in
    let same_number : number g ≡ number h = ground arith in
    let back_g = rebuild-kind g in let back_h = rebuild-kind h in cc

pub same_handle_refl : (h : Handle) → same_handle h h ≡ true
unfolding same_handle
same_handle_refl h = ground arith

-- `Close` of a handle.
unfoldable pub without : Handle → List Handle → List Handle
unfolding same_handle
without h [] = []
without h (g ∷ gs) = let rest = without h gs in if same_handle g h then rest else g ∷ rest

unfoldable pub close_handles : List Handle → World → World
close_handles [] w = w
close_handles (h ∷ hs) w = close_handles hs (record w { live = without h w.live })
