-- ===== src/Http/Cache.antt =====
-- The cache of hoxFileMgr of server/hoxFileMgr.cpp is transparent.
use hox_server.Prelude.{
  ◌≡◌, refl, sym, ◌∙◌, subst, ap, true, false, Option, none, some, ◌⊎◌, inl, inr, Bool-cases,
}
use hox_server.Table.State.{Text, is_text}
use hox_server.Util.RoundTrip.{is_text→≡}
use hox_server.Http.Files.{File, FileMgr, load_file, store_file, fetch_file, get_file}

-- Each file in the cache is the one that the store has at its path.
abbrev pub Fresh : (Text → Option Text) → FileMgr → Type 0
Fresh get m = (q : Text) → (m.files q ≡ none) ⊎ (m.files q ≡ load_file get q)

-- The file that getFile gives, and the manager after it.
unfoldable pub file_given : Option (FileMgr × File) → Option File
file_given none = none
file_given (some (m, f)) = some f

unfoldable pub mgr_after : FileMgr → Option (FileMgr × File) → FileMgr
mgr_after m none = m
mgr_after m (some (m', f)) = m'

store_file-Fresh :
    (get : Text → Option Text) (m : FileMgr) (path : Text) (f : File)
    → Fresh get m
    → load_file get path ≡ some f
    → Fresh get (store_file path f m)
unfolding store_file
store_file-Fresh get m path f h e q = elim (Bool-cases (is_text q path)) [
  | inl same ↦ inr (rw same (sym (ap (load_file get) (is_text→≡ q path same) ∙ e)))
  | inr other ↦ rw other (h q)
]

option_cases : (o : Option File) → (o ≡ none) ⊎ ((f : File) × (o ≡ some f))
option_cases none = inl refl
option_cases (some f) = inr (f, refl)

file_given-fetch_file :
    (get : Text → Option Text) (m : FileMgr) (path : Text)
    → file_given (fetch_file get m path) ≡ load_file get path
unfolding file_given fetch_file
file_given-fetch_file get m path = elim (option_cases (load_file get path)) [
  | inl e ↦ rw (e, fetch_file) refl
  | inr (f, e) ↦ rw (e, fetch_file) refl
]

fetch_file-Fresh :
    (get : Text → Option Text) (m : FileMgr) (path : Text)
    → Fresh get m
    → Fresh get (mgr_after m (fetch_file get m path))
unfolding mgr_after fetch_file
fetch_file-Fresh get m path h = elim (option_cases (load_file get path)) [
  | inl e ↦ rw (e, fetch_file, mgr_after) h
  | inr (f, e) ↦
      rw (e, fetch_file, mgr_after)
        (elim (Bool-cases m.cache_enabled) [
          | inl on ↦ rw on (store_file-Fresh get m path f h e)
          | inr off ↦ rw off h
        ])
]

cached :
    (get : Text → Option Text) (m : FileMgr) (path : Text) (f : File)
    → m.files path ≡ some f
    → (m.files path ≡ none) ⊎ (m.files path ≡ load_file get path)
    → some f ≡ load_file get path
cached get m path f e (inl k) = cc
cached get m path f e (inr k) = sym e ∙ k

abbrev Transparent : (Text → Option Text) → FileMgr → Text → Option (FileMgr × File) → Type 0
unfolding file_given mgr_after
Transparent get m path r = (file_given r ≡ load_file get path) × Fresh get (mgr_after m r)

by_fetch :
    (get : Text → Option Text) (m : FileMgr) (path : Text)
    → Fresh get m
    → get_file get m path ≡ fetch_file get m path
    → Transparent get m path (get_file get m path)
unfolding Transparent
by_fetch get m path h e =
    subst (Transparent get m path) (sym e)
      (file_given-fetch_file get m path, fetch_file-Fresh get m path h)

get_file-uncached :
    (get : Text → Option Text) (m : FileMgr) (path : Text)
    → m.cache_enabled ≡ false
    → get_file get m path ≡ fetch_file get m path
unfolding get_file
get_file-uncached get m path off = simp off refl

get_file-missed :
    (get : Text → Option Text) (m : FileMgr) (path : Text)
    → m.cache_enabled ≡ true
    → m.files path ≡ none
    → m.error_if_not_in_cache ≡ false
    → get_file get m path ≡ fetch_file get m path
unfolding get_file
get_file-missed get m path on e lenient = simp (on, e, lenient) refl

get_file-found :
    (get : Text → Option Text) (m : FileMgr) (path : Text) (f : File)
    → m.cache_enabled ≡ true
    → m.files path ≡ some f
    → get_file get m path ≡ some (m, f)
unfolding get_file
get_file-found get m path f on e = simp (on, e) refl

-- If each file in the cache is the one that the store has at its path, and the manager is not told to
-- refuse the files that are not in the cache, then getFile, with the cache or without it, gives the
-- file that the store has, fails exactly where the store has none, and leaves such a cache.
pub get_file-transparent :
    (get : Text → Option Text) (m : FileMgr) (path : Text)
    → Fresh get m
    → m.error_if_not_in_cache ≡ false
    → (file_given (get_file get m path) ≡ load_file get path)
      × Fresh get (mgr_after m (get_file get m path))
unfolding Transparent
get_file-transparent get m path h lenient = elim (Bool-cases m.cache_enabled) [
  | inr off ↦ by_fetch get m path h (get_file-uncached get m path off)
  | inl on ↦ elim (option_cases (m.files path)) [
    | inl e ↦ by_fetch get m path h (get_file-missed get m path on e lenient)
    | inr (f, e) ↦
        subst (Transparent get m path) (sym (get_file-found get m path f on e))
          (cached get m path f e (h path), h)
  ]
]
