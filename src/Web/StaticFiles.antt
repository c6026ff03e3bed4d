-- ===== src/Web/StaticFiles.antt =====
-- src/web/static_file_handler.cpp: the table of assets and the answers to requests. A path is the list
-- of its parts; what std::filesystem and the disk answer is an argument.
pub mod Decode
pub mod Served
mod Tests
use skai_edge_native.Common.{
  ℕ, ◌+◌, ◌-◌, ◌*◌, List, [], ◌∷◌, ◌++◌, Option, none, some, Bool, true, false, not, ◌&&◌, ◌||◌,
  ltb, leb, eqb, ◌==◌, if◌then◌else◌, codes, length, take, drop, find, map,
}

-- `weakly_canonical`, `operator/`, `is_directory`, `is_regular_file`, `file_size`, the bytes that can
-- be read, `extension` and `generic_string`; `none` is an error.
pub record FileSystem : Type 0 where
  pub canonical : List (List ℕ) → Option (List (List ℕ))
  pub append : List (List ℕ) → List ℕ → List (List ℕ)
  pub is_directory : List (List ℕ) → Bool
  pub is_regular_file : List (List ℕ) → Bool
  pub file_size : List (List ℕ) → Option ℕ
  pub read : List (List ℕ) → Option (List ℕ)
  pub extension : List (List ℕ) → List ℕ
  pub generic_string : List (List ℕ) → List ℕ

-- The lambda `hex`; `none` is -1.
pub hex : ℕ → Option ℕ
hex c =
    if leb 48 c && leb c 57
    then some (c - 48)
    else if leb 97 c && leb c 102
    then some (c - 97 + 10)
    else if leb 65 c && leb c 70
    then some (c - 65 + 10)
    else none

abbrev pub cons_some : ℕ → Option (List ℕ) → Option (List ℕ)
cons_some c none = none
cons_some c (some cs) = some (c ∷ cs)

-- The byte of two digits, before the rest; NUL is refused.
pub escaped : Option ℕ → Option ℕ → Option (List ℕ) → Option (List ℕ)
escaped (some high) (some low) rest =
    if high * 16 + low == 0 then none else cons_some (high * 16 + low) rest
escaped none low rest = none
escaped (some high) none rest = none

-- The loop of `decode_path`.
pub decode : List ℕ → Option (List ℕ)
decode [] = some []
decode (c ∷ []) = if c == 37 then none else some (c ∷ [])
decode (c ∷ d ∷ []) = let rest = decode (d ∷ []) in if c == 37 then none else cons_some c rest
decode (c ∷ d ∷ e ∷ cs) =
    let rest = decode (d ∷ e ∷ cs) in
    let later = decode cs in if c == 37 then escaped (hex d) (hex e) later else cons_some c rest

-- The target up to the query.
pub without_query : List ℕ → List ℕ
without_query target = elim (find 63 target) [ none ↦ target | some query ↦ take query target ]

-- The last test.
pub absolute : Option (List ℕ) → Option (List ℕ)
absolute none = none
absolute (some []) = none
absolute (some (c ∷ cs)) = if c == 47 then some (c ∷ cs) else none

pub decode_path : List ℕ → Option (List ℕ)
decode_path target = absolute (decode (without_query target))

pub is_within : List (List ℕ) → List (List ℕ) → Bool
is_within [] candidate = true
is_within (part ∷ root) [] = false
is_within (part ∷ root) (c ∷ candidate) = eqb part c && is_within root candidate

pub content_type : List ℕ → List ℕ
content_type extension =
    if eqb extension (codes ".html")
    then codes "text/html; charset=utf-8"
    else if eqb extension (codes ".js")
    then codes "text/javascript; charset=utf-8"
    else if eqb extension (codes ".css")
    then codes "text/css; charset=utf-8"
    else if eqb extension (codes ".json")
    then codes "application/json"
    else if eqb extension (codes ".svg")
    then codes "image/svg+xml"
    else if eqb extension (codes ".png")
    then codes "image/png"
    else if eqb extension (codes ".jpg") || eqb extension (codes ".jpeg")
    then codes "image/jpeg"
    else codes "application/octet-stream"

pub record Asset : Type 0 where
  pub body : List ℕ
  pub content_type : List ℕ

-- `StaticFileHandler`; the first entry of a key counts.
pub record StaticFileHandler : Type 0 where
  pub root : List (List ℕ)
  pub assets : List (List ℕ × Asset)
  pub error : List ℕ

abbrev pub asset_names : List (List ℕ)
asset_names =
    codes "index.html"
    ∷ codes "app.js"
    ∷ codes "style.css"
    ∷ codes "diagnostics.html"
    ∷ codes "diagnostics.js"
    ∷ codes "diagnostics.css"
    ∷ []

module _ (fs : FileSystem) where
  -- The rest of a round of the constructor, for a file that is there.
  pub load_file :
      List (List ℕ) → List ℕ → List (List ℕ × Asset) × List ℕ → List (List ℕ × Asset) × List ℕ
  load_file path name rest = elim (fs.file_size path) [
    | none ↦ ([], codes "cannot inspect static asset: " ++ name)
    | some size ↦
        if ltb 1_048_576 size
        then ([], codes "static asset exceeds 1 MiB limit: " ++ name)
        else elim (fs.read path) [
          | none ↦ ([], codes "cannot read static asset: " ++ name)
          | some bytes ↦ (
            (
              fs.generic_string path,
              record { body = take size bytes; content_type = content_type (fs.extension path) },
            )
                ∷ rest.0,
            rest.1,
          )
        ]
  ]

  -- The loop of the constructor: the assets, and the error that ends it.
  pub load_assets : List (List ℕ) → List (List ℕ) → List (List ℕ × Asset) × List ℕ
  load_assets root [] = ([], [])
  load_assets root (name ∷ names) =
      let rest = load_assets root names in
      elim (fs.canonical (fs.append root name)) [
        | none ↦ rest
        | some path ↦
            if is_within root path && fs.is_regular_file path
            then load_file path name rest
            else rest
      ]

  -- The rest of the constructor, by whether the root is a directory.
  pub open_root : List (List ℕ) → Bool → StaticFileHandler
  open_root root true = record {
    root = root;
    assets = (load_assets root asset_names).0;
    error = (load_assets root asset_names).1;
  }
  open_root root false = record {
    root = root;
    assets = [];
    error = codes "web.root must be an accessible directory";
  }

  pub open_canonical : Option (List (List ℕ)) → StaticFileHandler
  open_canonical none = record {
    root = [];
    assets = [];
    error = codes "web.root must be an accessible directory";
  }
  open_canonical (some root) = open_root root (fs.is_directory root)

  -- The constructor, on the root of the configuration; a root that cannot be used is an error.
  pub make_handler : List (List ℕ) → StaticFileHandler
  make_handler configured = open_canonical (fs.canonical configured)

pub data Method : Type 0 where
  get head other_method : Method

pub data Status : Type 0 where
  ok bad_request forbidden not_found method_not_allowed : Status

pub record Response : Type 0 where
  pub status : Status
  pub content_type : List ℕ
  pub body : List ℕ
  pub content_length : ℕ

pub text_response : Status → List ℕ → Response
text_response status message = record {
  status = status;
  content_type = codes "text/plain; charset=utf-8";
  body = message ++ 10 ∷ [];
  content_length = length message + 1;
}

pub find_asset : List ℕ → List (List ℕ × Asset) → Option Asset
find_asset key [] = none
find_asset key ((k, asset) ∷ assets) =
    let later = find_asset key assets in if eqb k key then some asset else later

-- The file that a decoded path names, relative to the root.
pub relative_of : List ℕ → List ℕ
relative_of decoded =
    if eqb decoded (codes "/")
    then codes "index.html"
    else if eqb decoded (codes "/diagnostics")
    then codes "diagnostics.html"
    else drop 1 decoded

pub asset_response : Method → Option Asset → Response
unfolding text_response
asset_response method none = text_response not_found (codes "not found")
asset_response head (some asset) = record {
  status = ok;
  content_type = asset.content_type;
  body = [];
  content_length = length asset.body;
}
asset_response _ (some asset) = record {
  status = ok;
  content_type = asset.content_type;
  body = asset.body;
  content_length = length asset.body;
}

module _ (fs : FileSystem) where
  pub serve : StaticFileHandler → Method → List ℕ → Response
  serve handler method target = elim (decode_path target) [
    | none ↦ text_response bad_request (codes "invalid request target")
    | some decoded ↦ elim (fs.canonical (fs.append handler.root (relative_of decoded))) [
      | none ↦ text_response not_found (codes "not found")
      | some candidate ↦
          if is_within handler.root candidate
          then asset_response method (find_asset (fs.generic_string candidate) handler.assets)
          else text_response forbidden (codes "forbidden")
    ]
  ]

  -- `handle`.
  pub handle : StaticFileHandler → Method → List ℕ → Response
  unfolding serve
  handle handler get target = serve handler get target
  handle handler head target = serve handler head target
  handle handler other_method target = text_response method_not_allowed (codes "method not allowed")
