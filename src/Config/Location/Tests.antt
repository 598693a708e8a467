-- ===== src/Config/Location/Tests.antt =====
-- A block with a realm and `try_files`, and the theorem at it.
use elrond.Base.{err, ◌≡◌, refl, none, some, List, [], ◌∷◌, Text, codes, IfOk}
use elrond.Config.Parser.{Directives, directive, nil, cons, no_block}
use elrond.Config.Location.{prefix, is_content, content_of, several_contents}
use elrond.Config.Location.Build.{build_location, location_directive, location_directives}
use elrond.Config.Location.Content.{IsBuilt, build_location-IsBuilt}

abbrev line : Text → List Text → Directives → Directives
line name given ds = cons (directive name given no_block 1) ds

abbrev tried : Directives
tried =
    line (codes "try_files") (codes "$uri" ∷ codes "=404" ∷ [])
      (line (codes "auth_basic") (codes "off" ∷ []) nil)

-- two content directives are too many
twice_refused :
    build_location
      (codes "/")
      prefix
      (line (codes "root") (codes "/www" ∷ []) (line (codes "metrics") [] nil))
      none
    ≡ err several_contents
unfolding build_location location_directives location_directive is_content content_of
twice_refused = refl

build_location-IsBuilt_example :
    IfOk
      (build_location (codes "/") prefix tried (some (codes "/www")))
      (IsBuilt tried (some (codes "/www")))
build_location-IsBuilt_example =
    build_location-IsBuilt (codes "/") prefix tried (some (codes "/www"))
