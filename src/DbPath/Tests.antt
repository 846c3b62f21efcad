-- ===== src/DbPath/Tests.antt =====
-- Names of databases, and an instance of the theorem.
use kokoadb.Prelude.{[], ◌∷◌, String, ◌≡◌, refl, some, ◌<◌}
use kokoadb.Error.{ok, err, bad_request, Ensures}
use kokoadb.Text.{
  split, join, trim, trim_start, trim_end, is_whitespace, all_chars, contains_char, count_pair,
  is_word_char,
}
use kokoadb.DbPath.{
  is_path_char, check_segments, is_unsafe, normalize_db_path, pushed, PathBuf, resolve_db_file,
}
use kokoadb.DbPath.Inside.{walk, resolve_db_file-inside}

names : Unit {0}
unfolding split join trim trim_start trim_end is_whitespace all_chars contains_char count_pair
    is_word_char is_path_char check_segments is_unsafe normalize_db_path pushed resolve_db_file
names = tt

two_levels : normalize_db_path " team/app-1 " ≡ ok "team/app-1"
unfolding names
two_levels = refl

parent : normalize_db_path "team/../../etc" ≡ err (bad_request "invalid db_path")
unfolding names
parent = refl

two_slashes : normalize_db_path "team//app" ≡ err (bad_request "invalid db_path")
unfolding names
two_slashes = refl

-- A part `.` stays in the name and in the path, so `team/app` has another name.
same_directory :
    resolve_db_file "/data" "team/./app"
    ≡ ok ("team/./app", record { directory = "/data"; components = "team" ∷ "." ∷ "app.db" ∷ [] })
unfolding names
same_directory = refl

resolve_db_file-inside_example :
    Ensures
      (λ (r : String × PathBuf).
        (r.1.directory ≡ "/data") × ((k : _) × (walk r.1.components 0 ≡ some k) × (0 < k)))
      (resolve_db_file "/data" "team/app-1")
resolve_db_file-inside_example = resolve_db_file-inside "/data" "team/app-1"
