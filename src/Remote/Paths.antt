-- ===== src/Remote/Paths.antt =====
-- windows/src/screen_path.rs: the path of a peer's screen. mac/src/contract.rs has the same.
use moq_cast_desktop.Base.{ℕ, ◌==◌, Bool, false, ◌||◌, not, List, [], ◌∷◌, ◌++◌, Option, keep_if}
use moq_cast_desktop.Base.Bytes.{bytes, strip_prefix}

abbrev pub screen_prefix : List ℕ
screen_prefix = bytes "moqcast.screen/"

unfoldable pub for_peer : List ℕ → List ℕ
for_peer peer = screen_prefix ++ peer

abbrev pub contains_byte : ℕ → List ℕ → Bool
contains_byte b [] = false
contains_byte b (x ∷ xs) = (x == b) || contains_byte b xs

-- `!peer_id.is_empty() && !peer_id.contains('/')`
abbrev pub is_segment : List ℕ → Bool
is_segment [] = false
is_segment (x ∷ xs) = not (contains_byte b'/' (x ∷ xs))

unfoldable pub peer_id : List ℕ → Option (List ℕ)
peer_id path = keep_if is_segment (strip_prefix path screen_prefix)
