-- ===== src/Util/Tests.antt =====
-- The theorems on the text utilities at concrete texts.
use libsigar.Base.{some, ◌≡◌, refl}
use libsigar.Text.{codes, to_lower}
use libsigar.Util.Words.{
  uitoa, digits_from, getword, word_until, skip_stop, skip_multiple_token, skip_token, skip_spaces,
  skip_word,
}
use libsigar.Util.Search.{
  rest_matches, search_from, str_str, strcasestr, IsFirst, strcasestr-IsFirst,
}

finds : strcasestr (codes "/usr/sbin/HTTPD -k") (codes "httpd") ≡ some (codes "HTTPD -k")
unfolding strcasestr str_str search_from rest_matches
finds = refl

strcasestr-IsFirst_example :
    IsFirst to_lower
      (codes "httpd")
      (codes "/usr/sbin/HTTPD -k")
      (strcasestr (codes "/usr/sbin/HTTPD -k") (codes "httpd"))
strcasestr-IsFirst_example = strcasestr-IsFirst (codes "/usr/sbin/HTTPD -k") (codes "httpd")

printed : uitoa 1024 ≡ some (codes "1024")
unfolding uitoa digits_from
printed = refl

words : getword (codes "root::0") b':' ≡ (codes "root", codes "0")
unfolding getword word_until skip_stop
words = refl

skipped : skip_multiple_token (codes "1 (init) S 0") 2 ≡ codes " S 0"
unfolding skip_multiple_token skip_token skip_spaces skip_word
skipped = refl
