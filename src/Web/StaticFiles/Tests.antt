-- ===== src/Web/StaticFiles/Tests.antt =====
-- A concrete directory with one asset, and instances of the theorems on it.
use skai_edge_native.Common.{
  ℕ, ◌≡◌, refl, List, [], ◌∷◌, ◌++◌, some, Bool, true, ◌||◌, ◌==◌, codes, eqb, find,
}
use skai_edge_native.Web.StaticFiles.{
  FileSystem, decode, without_query, absolute, decode_path, is_within, load_file, load_assets,
  open_root, open_canonical, make_handler, get, ok, find_asset, relative_of, asset_response, serve,
  handle,
}
use skai_edge_native.Web.StaticFiles.Served.{Gives, handle-Gives}

-- Only `index.html` can be resolved.
abbrev directory : FileSystem
directory = record {
  canonical = λ path. some path;
  append = λ root name. root ++ name ∷ [];
  is_directory = λ path. true;
  is_regular_file = λ path. eqb (last_part path) (codes "index.html");
  file_size = λ path. some 5;
  read = λ path. some (codes "hello");
  extension = λ path. codes ".html";
  generic_string = λ path. last_part path;
}
  where
    last_part : List (List ℕ) → List ℕ
    last_part [] = []
    last_part (part ∷ []) = part
    last_part (part ∷ next ∷ parts) = last_part (next ∷ parts)

abbrev www : List (List ℕ)
www = codes "www" ∷ []

index_is_served : (handle directory (make_handler directory www) get (codes "/?v=1")).status ≡ ok
unfolding handle serve make_handler open_canonical open_root load_assets load_file decode_path
    decode without_query absolute is_within find_asset relative_of asset_response find eqb
index_is_served = refl

handle-Gives_example :
    Gives directory
      (make_handler directory www).root
      get
      (handle directory (make_handler directory www) get (codes "/?v=1"))
handle-Gives_example = handle-Gives directory www get (codes "/?v=1") index_is_served

-- Only `%` and `?` are encoded.
abbrev escapes : ℕ → Bool
escapes c = c == 37 || c == 63
