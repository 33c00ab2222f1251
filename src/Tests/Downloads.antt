-- ===== src/Tests/Downloads.antt =====
-- The download, and its property applied.
use learncppthroughprojects.Prelude.{true, false, some, codes, ◌≡◌}
use learncppthroughprojects.Downloader.{
  Transfer, Held, nothing_held, download_file, use_all, download_file-releases,
}

abbrev refused : Transfer
refused = record { has_handle = true; has_file = true; is_ok = false }

download_file-releases_example :
    (h : Held) × (use_all refused
        (download_file refused (codes "u") (codes "d") (codes "c")).1
        nothing_held
      ≡ some h)
    × (h.handle ≡ false)
    × (h.file ≡ false)
    × (h.library ≡ 0)
    × ((download_file refused (codes "u") (codes "d") (codes "c")).0 ≡ false)
download_file-releases_example = download_file-releases refused (codes "u") (codes "d") (codes "c")
