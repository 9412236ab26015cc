-- ===== src/Uploads.antt =====
-- The names of uploaded files: `sanitize_filename` of app/services/dataset_storage.py. The child
-- Storage has the staging and the commit of that file. The white space of Python is a parameter.
pub mod Filename
pub mod Storage
pub mod Commit
use defnex_mlops.Base.{
  ℕ, Bool, List, [], ◌∷◌, ◌==◌, ◌||◌, if◌then◌else◌, Result, ok, err, any, map, true, false,
}
use defnex_mlops.Text.{Text, strip, same_text}

pub data UnsafeFilenameError : Type 0 where
  nul_byte no_usable_component : UnsafeFilenameError

-- The code points of `.`, `/` and `\`.
abbrev pub full_stop : ℕ
full_stop = 46

abbrev pub slash : ℕ
slash = 47

abbrev pub backslash : ℕ
backslash = 92

abbrev pub has_char : ℕ → Text → Bool
has_char k s = any (λ x. x == k) s

-- `filename.replace("\\", "/")`
unfoldable pub to_slashes : Text → Text
to_slashes [] = []
to_slashes (c ∷ s) = (if c == backslash then slash else c) ∷ to_slashes s

-- `.rsplit("/", 1)[-1]`
unfoldable pub last_component : Text → Text
last_component [] = []
last_component (c ∷ s) =
    let rest = last_component s in
    if has_char slash s then rest else if c == slash then s else c ∷ s

-- `candidate in ("", ".", "..")`
unfoldable pub is_unusable : Text → Bool
is_unusable s =
    same_text s [] || (same_text s (full_stop ∷ []) || same_text s (full_stop ∷ full_stop ∷ []))

module _ (is_space : ℕ → Bool) where
  -- `sanitize_filename`
  unfoldable pub sanitize_filename : Text → Result UnsafeFilenameError Text
  sanitize_filename s =
      let candidate = strip is_space (last_component (to_slashes s)) in
      if has_char 0 s
      then err nul_byte
      else if is_unusable candidate
      then err no_usable_component
      else ok candidate
