-- ===== src/Whip/Publisher/Token/Tests.antt =====
-- Concrete lines of the file `.env`, and concrete headers.
use skai_edge_native.Common.{◌≡◌, refl, [], ◌∷◌, codes, starts_with, find, eqb}
use skai_edge_native.Whip.Publisher.Token.{
  skip_spaces, drop_spaces, trim, last_is, unquote, token_of, token_in, load_token, receive_header,
}

token_is_read :
    load_token []
      (codes "# comment" ∷ codes "  export WHIP_TOKEN= \"abc\" " ∷ codes "WHIP_TOKEN=x" ∷ [])
    ≡ codes "abc"
unfolding load_token token_in token_of trim skip_spaces drop_spaces unquote last_is starts_with
token_is_read = refl

location_is_read : receive_header (codes "Location: /whip/1\n") [] ≡ codes "/whip/1"
unfolding receive_header trim skip_spaces drop_spaces find eqb
location_is_read = refl
