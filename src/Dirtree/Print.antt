-- ===== src/Dirtree/Print.antt =====
-- Lab2/202110421_assign2/dirtree.c: the output functions, as the bytes that they print.
use system_programming.Base.{
  ℕ, ◌-◌, ◌*◌, Option, none, some, List, [], ◌∷◌, ◌++◌, ◌==◌, ltb, if◌then◌else◌, replicate, take,
}
use system_programming.Base.Text.{text, decimal, pad_left, pad_right}
use system_programming.Dirtree.Sys.{Sys}
use system_programming.Dirtree.Summary.{Stat, Summary, u64, get_type_char, all_entries}
use system_programming.Dirtree.Name.{snprintf, format_truncated_left, build_display_name}

abbrev pub end_of_line : List ℕ
end_of_line = b'\n' ∷ []

-- `print_formats[0]` and `print_formats[1]`.
abbrev pub header_line : List ℕ
header_line =
    text
      "Name                                                        User:Group           Size    Blocks Type"
    ++ end_of_line

abbrev pub separator_line : List ℕ
separator_line = replicate 100 b'-' ++ end_of_line

-- `print_formats[2]`
abbrev pub error_line : List ℕ → List ℕ → List ℕ
error_line front message = front ++ text "  ERROR: " ++ message ++ end_of_line

abbrev pub pluralize : ℕ → List ℕ → List ℕ → List ℕ
pluralize count singular plural = if count == 1 then singular else plural

abbrev pub or_question : Option (List ℕ) → List ℕ
or_question none = b'?' ∷ []
or_question (some name) = name

abbrev pub lookup_user : Sys → ℕ → List ℕ
lookup_user sys uid = or_question (sys.getpwuid uid)

abbrev pub lookup_group : Sys → ℕ → List ℕ
lookup_group sys gid = or_question (sys.getgrgid gid)

abbrev pub print_root_line : List ℕ → List ℕ
print_root_line root_path = root_path ++ end_of_line

abbrev pub print_missing_path_line : List ℕ
print_missing_path_line = error_line [] (text "No such file or directory")

-- Goes to the error stream.
abbrev pub print_permission_denied_line : ℕ → List ℕ
print_permission_denied_line depth =
    error_line (snprintf 64 (replicate ((depth - 1) * 2) b' ')) (text "Permission denied")

-- `print_formats[4]`
unfoldable pub print_entry_line : Sys → List ℕ → Stat → List ℕ
unfolding get_type_char
print_entry_line sys display_name st =
    pad_right 54 display_name
    ++ text "  "
    ++ pad_left 8 (take 8 (lookup_user sys st.st_uid))
    ++ text ":"
    ++ pad_right 8 (take 8 (lookup_group sys st.st_gid))
    ++ text "  "
    ++ pad_left 10 (decimal (u64 st.st_size))
    ++ text "  "
    ++ pad_left 8 (decimal (u64 st.st_blocks))
    ++ text "    "
    ++ get_type_char st ∷ end_of_line

-- A buffer that is not empty is always filled.
abbrev pub filled : Option (List ℕ) → List ℕ
filled none = []
filled (some s) = s

abbrev pub name_column : List ℕ → ℕ → List ℕ
name_column name depth = filled (build_display_name 256 name depth)

-- `left` of `print_directory_summary`.
abbrev pub summary_text : Summary → List ℕ
summary_text stats =
    decimal stats.files
    ++ text " file"
    ++ pluralize stats.files [] (text "s")
    ++ text ", "
    ++ decimal stats.dirs
    ++ text " "
    ++ pluralize stats.dirs (text "directory") (text "directories")
    ++ text ", "
    ++ decimal stats.links
    ++ text " link"
    ++ pluralize stats.links [] (text "s")
    ++ text ", "
    ++ decimal stats.fifos
    ++ text " pipe"
    ++ pluralize stats.fifos [] (text "s")
    ++ text ", and "
    ++ decimal stats.socks
    ++ text " socket"
    ++ pluralize stats.socks [] (text "s")

unfoldable pub print_directory_summary : Summary → List ℕ
unfolding format_truncated_left
print_directory_summary stats =
    separator_line
    ++ pad_right 68 (filled (format_truncated_left 69 (snprintf 256 (summary_text stats)) 68))
    ++ text "   "
    ++ pad_left 14 (decimal stats.size)
    ++ text " "
    ++ pad_left 9 (decimal stats.blocks)
    ++ end_of_line
    ++ end_of_line

abbrev pub total_line : List ℕ → ℕ → ℕ → List ℕ
total_line label width n = label ++ pad_left width (decimal n) ++ end_of_line

unfoldable pub print_aggregate_summary : Summary → ℕ → List ℕ
unfolding all_entries
print_aggregate_summary total ndir =
    if ltb 1 ndir
    then text "Analyzed "
      ++ decimal ndir
      ++ text " directories:"
      ++ end_of_line
      ++ total_line (text "  total # of files:") 24 total.files
      ++ total_line (text "  total # of directories:") 18 total.dirs
      ++ total_line (text "  total # of links:") 24 total.links
      ++ total_line (text "  total # of pipes:") 24 total.fifos
      ++ total_line (text "  total # of sockets:") 22 total.socks
      ++ total_line (text "  total # of entries:") 22 (all_entries total)
      ++ total_line (text "  total file size:") 25 total.size
      ++ total_line (text "  total # of blocks:") 23 total.blocks
    else []
