-- ===== src/Registry.antt =====
-- Canonical bytes and content addresses: registry/canonical.py.
pub mod Activation
use Prim.Native.String.{◌++◌ as str_append}
use recursive_self_improveme.Common.{String, Option, List, [], ◌∷◌}
use recursive_self_improveme.Common.Json.{
  Bytes, Json, Items, Fields, str, arr, obj, nil, cons, end, field, dumps_utf8, null_or,
}
use recursive_self_improveme.Security.{Crypto}

unfoldable pub canonical_json : Json → Bytes
unfolding dumps_utf8
canonical_json body = dumps_utf8 body

unfoldable pub text_items : List String → Items
text_items [] = nil
text_items (s ∷ ss) = cons (str s) (text_items ss)

-- The mappings are given with their keys in sorted order.
unfoldable pub manifest_body_bytes : List String → Fields → Fields → Fields → Option String → Bytes
unfolding canonical_json text_items
manifest_body_bytes artifact_digests adapter_versions model_routes policies prior_release_digest =
    canonical_json (
      obj (
        field "adapter_versions" (obj adapter_versions) (
          field "artifact_digests" (arr (text_items artifact_digests)) (
            field "model_routes" (obj model_routes) (
              field "policies" (obj policies)
                (field "prior_release_digest" (null_or prior_release_digest) end))))))

unfoldable pub manifest_digest_for : Crypto → Bytes → String
manifest_digest_for crypto canonical_bytes =
    str_append "sha256:" (crypto.sha256_hex canonical_bytes)
