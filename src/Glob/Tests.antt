-- ===== src/Glob/Tests.antt =====
-- pkgs/extensions/guest-fs/src/lib.rs: patterns on concrete paths.
use jan_klod.Common.{◌≡◌, ◌↔◌, refl, true, false, All}
use jan_klod.Permission.Paths.{split}
use jan_klod.Glob.{match_loop, match_name, match_segments, segments, matches}
use jan_klod.Glob.Paths.{IsPlain, PathGlob, matches-PathGlob}

deep_run : matches "src/**/*.r?" "src/a/b/lib.rs" ≡ true
unfolding matches match_segments match_name match_loop split
deep_run = refl

shallow_run : matches "src/*.rs" "src/a/lib.rs" ≡ false
unfolding matches match_segments match_name match_loop split
shallow_run = refl

two_stars_run : match_name "*ab*c" "aababxc" ≡ true
unfolding match_name match_loop
two_stars_run = refl

-- A star of the pattern that meets a star of the name is taken for that one character.
star_in_name_run : match_name "*" "*b" ≡ false
unfolding match_name match_loop
star_in_name_run = refl

IsPlain-path : All IsPlain (segments "src/lib.rs")
unfolding split
IsPlain-path =
    ((refl, (refl, (refl, tt))), ((refl, (refl, (refl, (refl, (refl, (refl, tt)))))), tt))

matches-PathGlob_example :
    (matches "src/*.rs" "src/lib.rs" ≡ true)
    ↔ PathGlob (segments "src/*.rs") (segments "src/lib.rs")
matches-PathGlob_example = matches-PathGlob "src/*.rs" "src/lib.rs" IsPlain-path
