-- ===== src/Time/Format.antt =====
-- `FormatTime` of internal/time_format.cc. The source writes from the end of a buffer to its front,
-- so each function here puts its characters before a rest.
use google_cloud_cpp_spanner.Prelude.{ℕ, zero, suc, ◌+◌, ◌/◌, ◌%◌, List, ◌∷◌, ◌==◌, if◌then◌else◌}
use google_cloud_cpp_spanner.Prelude.Int.{ℤ, pos, negsuc, pos_part, ◌+ℤ◌}
use google_cloud_cpp_spanner.Time.Civil.{Tm}

-- `kDigits[d]`.
abbrev pub digit : ℕ → ℕ
digit d = 48 + d

-- `Format02d`.
unfoldable pub format_02d : ℕ → List ℕ → List ℕ
format_02d v rest = digit (v / 10 % 10) ∷ digit (v % 10) ∷ rest

-- The loop over the digits of a year that are left; the fuel is above it.
unfoldable pub leading : ℕ → ℕ → List ℕ → List ℕ
leading zero year rest = rest
leading (suc fuel) year rest =
    let more = leading fuel (year / 10) (digit (year % 10) ∷ rest) in
    if year == 0 then rest else more

-- The year, with four characters or more.
unfoldable pub format_year : ℤ → List ℕ → List ℕ
unfolding format_02d leading
format_year (pos y) rest =
    leading (suc y) (y / 100 / 100) (format_02d (y / 100 % 100) (format_02d (y % 100) rest))
format_year (negsuc k) rest =
    let y = suc k in
    b'-' ∷ leading (suc y) (y / 100 / 10) (digit (y / 100 % 10) ∷ format_02d (y % 100) rest)

-- `FormatTime`, before a rest. The fields but the year index `kDigits`, so they are not negative.
unfoldable pub format_time : Tm → List ℕ → List ℕ
unfolding format_02d format_year ◌+ℤ◌
format_time tm rest = format_year (tm.tm_year +ℤ pos 1900) (
    b'-'
    ∷ format_02d (pos_part (tm.tm_mon +ℤ pos 1)) (
        b'-'
        ∷ format_02d (pos_part tm.tm_mday) (
            b'T'
            ∷ format_02d (pos_part tm.tm_hour) (
                b':'
                ∷ format_02d (pos_part tm.tm_min) (b':' ∷ format_02d (pos_part tm.tm_sec) rest)))))
