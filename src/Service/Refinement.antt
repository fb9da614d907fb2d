-- ===== src/Service/Refinement.antt =====
-- The service (src/CuteIPCService.cpp) against the board of its signals.
use cute_ipc.Prelude.{suc, if◌then◌else◌, ℕ, ◌≡◌, List, [], ◌∷◌, Option}
use cute_ipc.Prelude.Text.{Text, same}
use cute_ipc.Prelude.Hash.{Hash}
use cute_ipc.Qt.{Qt}
use cute_ipc.MetaObjects.{MetaObjects}
use cute_ipc.Message.{Datum}
use cute_ipc.SignalHandler.{SignalHandler}
use cute_ipc.Service.{Service}
use cute_ipc.Service.Histories.{new_service}
use cute_ipc.Service.Board.{Board}
use cute_ipc.Service.BoardSteps.{Label, board_after, BoardStep, Goes}

-- The board after a history, the last label first.
unfoldable pub board_of_history : List Label → Board
board_of_history [] signature = []
board_of_history (l ∷ ls) signature = board_after l (board_of_history ls) signature

-- How many times a signature is in a list.
unfoldable pub occurrences : Text → List Text → ℕ
occurrences key [] = 0
occurrences key (other ∷ rest) = let n = occurrences key rest in if same other key then suc n else n

module _ {V I W : Type 0} (q : Qt V I) (o : MetaObjects V I W) where
  -- The labels of a history, the last one first.
  pub data BoardHistory (object : ℕ) (subject : Option ℕ) : List Label → Service → Type 0 where
    started : BoardHistory object subject [] (new_service object subject)
    followed_by :
        (ls : List Label) (s : Service) (l : Label) (s' : Service)
        → BoardHistory object subject ls s
        → BoardStep q o s l s'
        → BoardHistory object subject (l ∷ ls) s'

  -- One signature after the other.
  abbrev pub GoesAll : Board → List Text → List (Datum V I) → Service → Service → Type 0
  GoesAll board [] values s s' = s' ≡ s
  GoesAll board (key ∷ keys) values s s' =
      (t : Service) × Goes q o board key values s t × GoesAll board keys values t s'

  -- The name under which Qt knows the signal of a signature.
  abbrev pub signal_of : Text → Text
  signal_of signature = o.normalized_signature (q.to_latin1 signature)
