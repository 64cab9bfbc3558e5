-- ===== src/Installs.antt =====
-- crates/newgit-core/src/installs.rs: the install store's answers, the key of a tree, and the scan of a file in
-- chunks for the paths that would bind it to its workspace. SHA-256 and how many bytes a read returns are parameters.
pub mod Scan
pub mod Walk
mod Hits
pub mod Found
pub mod Names
pub mod Ends
use newgit.Prelude.{
  ℕ, zero, suc, ◌+◌, ◌-◌, ◌≡◌, Bool, true, false, not, ◌&&◌, ◌||◌, Option, none, some, List, [],
  ◌∷◌, ◌++◌, map, any, length, ◌==◌, nat_eq, list_eq, if◌then◌else◌, ltb, leb,
}
use newgit.Text.{Text, bytes, has_substring}
use newgit.Text.Slice.{take, drop}
use newgit.Objects.Trees.{hex}
use newgit.Resource.Accessors.{or_else}

pub data CopyMethod : Type 0 where
  reflink full : CopyMethod

-- `CopyMethod::min`: the full copy is the weaker.
abbrev pub weaker : CopyMethod → CopyMethod → CopyMethod
weaker reflink reflink = reflink
weaker reflink full = full
weaker full method = full

abbrev pub label : CopyMethod → Text
label reflink = bytes "copy-on-write"
label full = bytes "full copy"

abbrev pub note : CopyMethod → Text
note reflink = bytes "copy-on-write: entries cost close to nothing"
note full =
    bytes
      "full copy: this filesystem has no reflink support, so every entry costs its full size on disk"

-- What admitting a built tree did.
pub data Admission : Type 0 where
  tree_stored : CopyMethod → List Text → Admission
  tree_already_stored : Admission
  tree_declined tree_incomplete : Text → Admission

pub data InstallReport : Type 0 where
  filled : Text → CopyMethod → InstallReport
  stored : Text → CopyMethod → List Text → InstallReport
  already_stored : Text → InstallReport
  declined : Text → Text → InstallReport
  unavailable : Text → InstallReport

-- The loop over the renders that matched nothing.
abbrev pub stale : List Text → Text
stale [] = []
stale (path ∷ paths) =
    bytes "; the render into `"
    ++ (path ++ (bytes "` matched nothing, so it may be out of date" ++ stale paths))

-- The three bytes of a long dash.
abbrev pub dash : Text
dash = 226 ∷ 128 ∷ 148 ∷ []

unfoldable pub summary : InstallReport → Text
summary (filled key method) =
    bytes "install store: filled from " ++ (key ++ (bytes " (" ++ (label method ++ bytes ")")))
summary (stored key method unrendered) =
    bytes "install store: stored as "
    ++ (key ++ (bytes " (" ++ (label method ++ (bytes ")" ++ stale unrendered))))
summary (already_stored key) = bytes "install store: " ++ (key ++ bytes " already stored")
summary (declined key path) =
    bytes "install store: not stored "
    ++ (dash
        ++ (bytes " the built tree names its own workspace in `"
            ++ (path
                ++ (bytes "`, so it cannot be shared (key "
                    ++ (key
                        ++ bytes
                            "); a `[[render]]` with `with = \"{{workspace}}\"` on that file lets the store rewrite it per instance")))))
summary (unavailable reason) = bytes "install store unavailable: " ++ reason

abbrev pub copy_args : CopyMethod → Bool → List Text
copy_args reflink true = bytes "-Rpc" ∷ []
copy_args reflink false = bytes "-a" ∷ bytes "--reflink=always" ∷ []
copy_args full true = bytes "-Rp" ∷ []
copy_args full false = bytes "-a" ∷ []

-- `identity_key`: the first six bytes of a digest, in hexadecimal.
unfoldable pub identity_key : (Text → Text) → Text → Option Text → Text → Text → Text
identity_key sha256 inputs_rev key_material binding definition_rev = hex (
    take 6 (
      sha256
        (inputs_rev ++ (0 ∷ (or_else key_material [] ++ (0 ∷ (binding ++ (0 ∷ definition_rev))))))))

abbrev pub max : ℕ → ℕ → ℕ
max m n = if ltb m n then n else m

-- The longest needle's length, or zero.
unfoldable pub longest : List Text → ℕ
longest [] = 0
longest (needle ∷ needles) = max (length needle) (longest needles)

abbrev pub matches : List Text → Text → Bool
matches needles window = any (has_substring window) needles

abbrev pub chunk : ℕ
chunk = 65536

abbrev pub smaller : ℕ → ℕ → ℕ
smaller m n = if ltb m n then m else n

-- How many bytes a read gives: some, if there is room and the file has more.
abbrev pub read_count : ℕ → ℕ → ℕ
read_count size room = smaller (suc size) room

-- The loop of `file_contains_any`, on fuel: each round but the last takes bytes from the file. The window is full
-- when it holds `overlap + chunk` bytes.
unfoldable pub scan : (ℕ → ℕ) → ℕ → List Text → ℕ → ℕ → Text → Text → Bool
scan sizes overlap needles zero round rest window = false
scan sizes overlap needles (suc fuel) round [] window = matches needles window
scan sizes overlap needles (suc fuel) round (c ∷ rest) window =
    let count = read_count (sizes round) (overlap + chunk - length window) in
    let filled = window ++ take count (c ∷ rest) in
    let more = drop count (c ∷ rest) in
    let next = scan sizes overlap needles fuel (suc round) more (
      if ltb (length filled) (overlap + chunk)
      then filled
      else drop (length filled - overlap) filled) in
    if not (ltb (length filled) (overlap + chunk)) && matches needles filled then true else next

unfoldable pub file_contains_any : (ℕ → ℕ) → List Text → Text → Bool
file_contains_any sizes needles content =
    if longest needles == 0
    then false
    else scan sizes (longest needles - 1) needles (suc (length content)) 0 content []
