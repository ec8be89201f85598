-- ===== src/Jobs/Worker/Names.antt =====
-- The names and messages that worker.go makes: safeMediaName and what Sprintf gives.
use luxury_video_tool.Base.{
  ℕ, String, List, [], ◌∷◌, if◌then◌else◌, ltb, str_eq, trim_space, cat, decimal, ◌||◌,
}
use luxury_video_tool.Files.Paths.{segments}

-- The last of the segments that are not empty, "/" if there is none.
unfoldable pub last_segment : String → List String → String
last_segment last [] = last
last_segment last (s ∷ ss) = last_segment (if str_eq s "" then last else s) ss

-- filepath.Base
unfoldable pub base : String → String
unfolding last_segment segments
base s = if str_eq s "" then "." else last_segment "/" (segments s)

unfoldable pub safe_media_name : String → String
unfolding base trim_space
safe_media_name value =
    let name : String = base (trim_space value) in
    if str_eq name "." || str_eq name "" then "douyin-video" else name

-- %02d
unfoldable pub two_digits : ℕ → String
unfolding decimal
two_digits n = if ltb n 10 then String.◌∷◌ "0" (decimal n) else decimal n

-- image-%02d and an extension
unfoldable pub image_name : ℕ → String → String
unfolding two_digits cat
image_name n ext = cat "image-" (cat (two_digits n) ext)

-- 正在下载配图 %d/%d
unfoldable pub image_message : ℕ → ℕ → String
unfolding decimal cat
image_message n total = cat "正在下载配图 " (cat (decimal n) (cat "/" (decimal total)))

-- 正在识别第 %d/%d 段
unfoldable pub segment_message : ℕ → ℕ → String
unfolding decimal cat
segment_message n total = cat "正在识别第 " (cat (decimal n) (cat "/" (cat (decimal total) " 段")))
