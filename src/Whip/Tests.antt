-- ===== src/Whip/Tests.antt =====
-- Concrete WHIP URLs and timestamps, and instances of the theorems about them.
use skai_edge_native.Common.{◌≡◌, refl, arith, codes, find, find_at, find_last, starts_with}
use skai_edge_native.Whip.ResourceUrl.{
  whip_resource_url, origin_of, ok, failed, different_origin, IsWithin, whip_resource_url-IsWithin,
  whip_resource_url-pathless,
}

resolves : whip_resource_url (codes "https://h/a/whip") (codes "/s/1") ≡ ok (codes "https://h/s/1")
unfolding whip_resource_url origin_of find_at find_last starts_with
resolves = refl

refuses : whip_resource_url (codes "https://h/a/whip") (codes "//evil/s") ≡ failed different_origin
unfolding whip_resource_url origin_of find_at find_last starts_with
refuses = refl

whip_resource_url-IsWithin_example :
    IsWithin (origin_of (codes "https://h/a/whip")) (codes "https://h/a/s1")
unfolding whip_resource_url origin_of find_at find_last starts_with
whip_resource_url-IsWithin_example =
    whip_resource_url-IsWithin (codes "https://h/a/whip") (codes "s1") (codes "https://h/a/s1") 9
      refl refl

whip_resource_url-pathless_example :
    whip_resource_url (codes "https://h") (codes "evil") ≡ ok (codes "https://evil")
unfolding find
whip_resource_url-pathless_example =
    whip_resource_url-pathless (codes "h") b'e' (codes "vil") refl refl (omega arith)
