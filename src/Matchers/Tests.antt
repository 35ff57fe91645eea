-- ===== src/Matchers/Tests.antt =====
-- URLs as they stand in logs.
use botex.Prelude.{◌≡◌, ◌↔◌, refl, true, false}
use botex.Matchers.{codes, is_asset}
use botex.Matchers.Spec.{HasExtension, is_asset_iff}

image : is_asset (codes "/img/logo.jpeg?v=2") ≡ true
unfolding is_asset
image = refl

page : is_asset (codes "/index.json/css") ≡ false
unfolding is_asset
page = refl

is_asset_iff_example : (is_asset (codes "/a.css") ≡ true) ↔ HasExtension (codes "/a.css")
is_asset_iff_example = is_asset_iff (codes "/a.css")
