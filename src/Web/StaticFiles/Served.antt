-- ===== src/Web/StaticFiles/Served.antt =====
-- What the handler serves.
use skai_edge_native.Common.{
  ℕ, ◌≤◌, ◌≡◌, refl, arith, List, [], ◌∷◌, Option, Option-cases, inl, inr, none, some, Bool, true,
  false, Bool-cases, ltb, eqb, take, length, subst, sym, ap, ◌∙◌,
}
use skai_edge_native.Web.StaticFiles.{
  FileSystem, is_within, Asset, StaticFileHandler, asset_names, load_file, load_assets, open_root,
  open_canonical, make_handler, Method, get, head, other_method, ok, Response, find_asset,
  asset_response, serve, handle, text_response, decode_path, relative_of,
}

-- The asset is the content of a regular file under the root, of at most 1 MiB.
pub record IsLoaded (fs : FileSystem) (root : List (List ℕ)) (asset : Asset) : Type 0 where
  path : List (List ℕ)
  bytes : List ℕ
  size : ℕ
  within : is_within root path ≡ true
  regular : fs.is_regular_file path ≡ true
  sized : fs.file_size path ≡ some size
  limited : size ≤ 1_048_576
  bytes_of : fs.read path ≡ some bytes
  same : asset.body ≡ take size bytes

-- The assets of a table.
abbrev AllLoaded : FileSystem → List (List ℕ) → List (List ℕ × Asset) → Type 0
AllLoaded fs root [] = Unit {0}
AllLoaded fs root ((key, asset) ∷ assets) = IsLoaded fs root asset × AllLoaded fs root assets

module _ (fs : FileSystem) where
  load_file_lem :
      (root path : List (List ℕ)) (name : List ℕ) (rest : List (List ℕ × Asset) × List ℕ)
      → is_within root path ≡ true
      → fs.is_regular_file path ≡ true
      → AllLoaded fs root rest.0
      → AllLoaded fs root (load_file fs path name rest).0
  unfolding load_file
  load_file_lem root path name rest w r v = elim (Option-cases (fs.file_size path)) [
    | inl e ↦ rw (AllLoaded, e) tt
    | inr (size, e) ↦ elim (Bool-cases (ltb 1_048_576 size)) [
      | inl big ↦ rw (AllLoaded, e, big) tt
      | inr fits ↦ elim (Option-cases (fs.read path)) [
        | inl g ↦ rw (AllLoaded, e, fits, g) tt
        | inr (bytes, g) ↦
            rw (AllLoaded, e, fits, g)
              (
                record {
                  path = path;
                  bytes = bytes;
                  size = size;
                  within = w;
                  regular = r;
                  sized = e;
                  limited = ground arith;
                  bytes_of = g;
                  same = refl;
                },
                v,
              )
      ]
    ]
  ]

  load_assets_lem : (root names : List (List ℕ)) → AllLoaded fs root (load_assets fs root names).0
  unfolding load_assets
  load_assets_lem root [] = tt
  load_assets_lem root (name ∷ names) = elim (Option-cases (fs.canonical (fs.append root name))) [
    | inl e ↦ rw (AllLoaded, e) (load_assets_lem root names)
    | inr (path, e) ↦ elim (Bool-cases (is_within root path)) [
      | inr out ↦ rw (AllLoaded, e, out) (load_assets_lem root names)
      | inl w ↦ elim (Bool-cases (fs.is_regular_file path)) [
        | inr other ↦ rw (AllLoaded, e, w, other) (load_assets_lem root names)
        | inl r ↦
            rw (AllLoaded, e, w, r)
              (load_file_lem root path name _ w r (load_assets_lem root names))
      ]
    ]
  ]

  open_root_lem :
      (root : List (List ℕ)) (is_directory : Bool)
      → AllLoaded fs (open_root fs root is_directory).root (open_root fs root is_directory).assets
  unfolding open_root
  open_root_lem root true = load_assets_lem root asset_names
  open_root_lem root false = tt

  open_canonical_lem :
      (root : Option (List (List ℕ)))
      → AllLoaded fs (open_canonical fs root).root (open_canonical fs root).assets
  unfolding open_canonical
  open_canonical_lem none = tt
  open_canonical_lem (some root) = open_root_lem root (fs.is_directory root)

  find_asset_lem :
      (root : List (List ℕ)) (key : List ℕ) (assets : List (List ℕ × Asset)) (asset : Asset)
      → AllLoaded fs root assets
      → find_asset key assets ≡ some asset
      → IsLoaded fs root asset
  unfolding find_asset
  find_asset_lem root key [] asset v e = absurd (ground arith)
  find_asset_lem root key ((k, a) ∷ assets) asset (first, v) e = elim (Bool-cases (eqb k key)) [
    | inl h ↦ let same : a ≡ asset = ground (arith, h) in subst (λ b. IsLoaded fs root b) same first
    | inr h ↦ find_asset_lem root key assets asset v (ground (arith, h))
  ]

  -- The response gives an asset that was loaded.
  abbrev pub Gives : List (List ℕ) → Method → Response → Type 0
  Gives root method response =
      (asset : Asset) × IsLoaded fs root asset
      × (response.content_length ≡ length asset.body)
      × (response.content_type ≡ asset.content_type)
      × (method ≡ get → response.body ≡ asset.body)

  asset_response_lem :
      (root : List (List ℕ)) (found : Option Asset) (method : Method)
      → ((asset : Asset) → found ≡ some asset → IsLoaded fs root asset)
      → (asset_response method found).status ≡ ok
      → Gives root method (asset_response method found)
  unfolding asset_response text_response
  asset_response_lem root none method v h = absurd (ground arith)
  asset_response_lem root (some asset) get v h = (asset, v asset refl, refl, refl, λ m. refl)
  asset_response_lem root (some asset) head v h =
      (asset, v asset refl, refl, refl, λ m. absurd (ground arith))
  asset_response_lem root (some asset) other_method v h =
      (asset, v asset refl, refl, refl, λ m. refl)

  serve_ok :
      (handler : StaticFileHandler) (method : Method) (target : List ℕ)
      → (serve fs handler method target).status ≡ ok
      → (key : List ℕ) × (serve fs handler method target
          ≡ asset_response method (find_asset key handler.assets))
  unfolding serve text_response
  serve_ok handler method target h = elim (Option-cases (decode_path target)) [
    | inl e ↦ absurd (ground (arith, e))
    | inr (decoded, e) ↦
        elim (Option-cases (fs.canonical (fs.append handler.root (relative_of decoded)))) [
          | inl g ↦ absurd (ground (arith, e, g))
          | inr (candidate, g) ↦ elim (Bool-cases (is_within handler.root candidate)) [
            | inl w ↦ (fs.generic_string candidate, ground (arith, e, g, w))
            | inr out ↦ absurd (ground (arith, e, g, out))
          ]
        ]
  ]

  serve-Gives :
      (configured : List (List ℕ)) (method : Method) (target : List ℕ)
      → (serve fs (make_handler fs configured) method target).status ≡ ok
      → Gives
          (make_handler fs configured).root
          method
          (serve fs (make_handler fs configured) method target)
  unfolding make_handler
  serve-Gives configured method target h =
      let handler = open_canonical fs (fs.canonical configured) in
      let (key, q) = serve_ok handler method target h in
      subst (Gives handler.root method) (sym q) (
        asset_response_lem handler.root (find_asset key handler.assets) method
          (λ asset e.
            find_asset_lem handler.root key handler.assets asset
              (open_canonical_lem (fs.canonical configured)) e)
          (ap (λ r. r.status) (sym q) ∙ h))

  -- Whatever the target is: a response with the status "ok" gives the length and type, and for GET
  -- the bytes, of an asset that the constructor read from a regular file of at most 1 MiB under the
  -- root of the handler.
  pub handle-Gives :
      (configured : List (List ℕ)) (method : Method) (target : List ℕ)
      → (handle fs (make_handler fs configured) method target).status ≡ ok
      → Gives
          (make_handler fs configured).root
          method
          (handle fs (make_handler fs configured) method target)
  unfolding handle text_response
  handle-Gives configured get target h = serve-Gives configured get target h
  handle-Gives configured head target h = serve-Gives configured head target h
  handle-Gives configured other_method target h = absurd (ground arith)
