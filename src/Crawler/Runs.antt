-- ===== src/Crawler/Runs.antt =====
-- What a run of the crawler prints.
use integrated_work_tll.Prelude.{
  String, ◌≡◌, refl, true, List, [], ◌∷◌, ◌++◌, some, All, All-append, starts_with, arith,
}
use integrated_work_tll.Json.{null, bool, num, str, arr, obj, Fields, end, field, lookup_field}
use integrated_work_tll.Crawler.{
  Endpoint, method_endpoints, path_endpoints, endpoints_in, extract_endpoints, Answer,
  request_exception, crawl, add_responses, main,
}

-- The `paths` of a specification: every key is a path, which begins with a slash, with a dict of methods.
abbrev pub ArePaths : Fields → Type 0
ArePaths end = Unit
ArePaths (field path (obj methods) paths) = (starts_with path "/" ≡ true) × ArePaths paths
ArePaths (field path null paths) = ⊥
ArePaths (field path (bool b) paths) = ⊥
ArePaths (field path (num n) paths) = ⊥
ArePaths (field path (str s) paths) = ⊥
ArePaths (field path (arr xs) paths) = ⊥

abbrev IsRelative : Endpoint → Type 0
IsRelative e = starts_with e.url "/" ≡ true

method_endpoints-IsRelative :
    (path : String) (methods : Fields)
    → starts_with path "/" ≡ true
    → All IsRelative (method_endpoints path methods)
method_endpoints-IsRelative path end h = tt
method_endpoints-IsRelative path (field method v methods) h =
    (h, method_endpoints-IsRelative path methods h)

path_endpoints-IsRelative :
    (paths : Fields)
    → ArePaths paths
    → (es : List Endpoint) × (path_endpoints paths ≡ some es) × All IsRelative es
unfolding path_endpoints
path_endpoints-IsRelative end h = ([], refl, tt)
path_endpoints-IsRelative (field path (obj methods) paths) h =
    let (es, found, relative) = path_endpoints-IsRelative paths h.1 in
    (
      method_endpoints path methods ++ es,
      rw (path_endpoints, found) refl,
      All-append IsRelative (method_endpoints path methods) es
          (method_endpoints-IsRelative path methods h.0) relative,
    )
path_endpoints-IsRelative (field path null paths) h = ground (arith, h)
path_endpoints-IsRelative (field path (bool b) paths) h = ground (arith, h)
path_endpoints-IsRelative (field path (num n) paths) h = ground (arith, h)
path_endpoints-IsRelative (field path (str s) paths) h = ground (arith, h)
path_endpoints-IsRelative (field path (arr xs) paths) h = ground (arith, h)

module _ (request : (method url : String) → Answer)
    (no_scheme : (method url : String)
      → starts_with url "/" ≡ true
      → (error : String) × (request method url ≡ request_exception error)) where
  crawl_nothing : (es : List Endpoint) → All IsRelative es → crawl request es ≡ []
  unfolding crawl
  crawl_nothing [] h = refl
  crawl_nothing (e ∷ es) h =
      let (error, raised) = no_scheme e.method e.url h.0 in
      rw (crawl, raised) (crawl_nothing es h.1)

  -- `requests` raises for a URL without a scheme: so a run on any specification whose paths begin with
  -- a slash and are dicts prints nothing, whatever its server is.
  pub main_nothing :
      (data_ paths : Fields)
      → lookup_field data_ "paths" ≡ some (obj paths)
      → ArePaths paths
      → main request (obj data_) ≡ some []
  unfolding main extract_endpoints endpoints_in add_responses lookup_field
  main_nothing end paths there h = ground arith
  main_nothing (field k v data_) paths there h =
      let (es, found, relative) = path_endpoints-IsRelative paths h in
      rw (main, extract_endpoints, there, found, crawl_nothing es relative) refl
