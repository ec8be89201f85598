-- ===== src/Resolver/Examples/Lookups.antt =====
-- A public and a private address, and a work that is resolved and then found again.
use luxury_video_tool.Base.{◌≡◌, refl, some, none, true, false, not, [], ◌∷◌, arith}
use luxury_video_tool.Resolver.Hosts.{v4, public_ip}
use luxury_video_tool.Resolver.Hosts.Ranges.{number, is_reserved, public_ip-ranges}
use luxury_video_tool.Resolver.Work.{Work, is_empty_shell}
use luxury_video_tool.Resolver.Cache.{answered, resolve, find_work}
use luxury_video_tool.Resolver.Cache.Again.{resolve-again}

public_ip-ranges_example : public_ip (v4 172 31 5 9) ≡ not (is_reserved (number 172 31 5 9))
public_ip-ranges_example = public_ip-ranges 172 31 5 9 (omega arith) (omega arith) (omega arith)

abbrev work : Work
work = record {
  id = "";
  douyin_work_id = "7";
  work_type = "video";
  canonical_url = "https://www.douyin.com/video/7";
  author_name = "a";
  title = "t";
  description = "d";
  cover_url = "";
  video_url = "https://v/7.mp4";
  images = [];
  music_url = "";
  resolver_version = "v1";
  resolved_at = 0;
}

abbrev kept : Work
kept = record work { id = "w1"; resolved_at = 100 }

resolve-again_example :
    resolve 50 "v1" (some "7") false 140 none "w2" 140 (kept ∷ []) ≡ (kept ∷ [], answered kept true)
unfolding resolve find_work is_empty_shell
resolve-again_example =
    resolve-again 50 "v1" "7" false 100 100 140 work none "w1" "w2" [] refl refl refl refl refl
      (omega arith)
