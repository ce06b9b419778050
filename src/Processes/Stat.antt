-- ===== src/Processes/Stat.antt =====
-- CrossPlatform/ProcessApi.Linux.cpp: the parser of /proc/<pid>/stat.
use nuke.Base.{ℕ, List, [], ◌∷◌, get_or}
use nuke.Base.Int.{ℤ}
use nuke.Base.Result.{Result, ok, ◌>>=◌}
use nuke.Base.Memory.{index}
use nuke.Text.{split}
use nuke.Text.Numbers.{stoi, stol, stoul}
use nuke.Processes.Names.{get_stat_file_path_for_process, get_stat_file_path_for_thread}

pub record ParsedStat : Type 0 where
  pub pid : ℤ
  pub comm : List ℕ
  pub state : ℕ
  pub ppid : ℤ
  pub session : ℤ
  pub utime : ℕ
  pub stime : ℕ
  pub nice : ℤ
  pub starttime : ℕ
  pub vsize : ℕ
  pub rss : ℤ
  pub rsslim : ℕ

abbrev pub space : List ℕ
space = 32 ∷ []

-- The members in the order in which they are read. `s[0]` of an empty string is its final zero.
unfoldable pub parse_parts : (parts : List (List ℕ)) → Result ParsedStat
parse_parts parts = do
  pid_text ← index parts 0
  pid ← stoi pid_text
  comm ← index parts 1
  state_text ← index parts 2
  ppid_text ← index parts 3
  ppid ← stoi ppid_text
  session_text ← index parts 5
  session ← stoi session_text
  utime_text ← index parts 13
  utime ← stoul utime_text
  stime_text ← index parts 14
  stime ← stoul stime_text
  nice_text ← index parts 18
  nice ← stol nice_text
  starttime_text ← index parts 21
  starttime ← stoul starttime_text
  vsize_text ← index parts 22
  vsize ← stoul vsize_text
  rss_text ← index parts 23
  rss ← stol rss_text
  rsslim_text ← index parts 24
  rsslim ← stoul rsslim_text
  ok (record {
    pid = pid;
    comm = comm;
    state = get_or state_text 0 0;
    ppid = ppid;
    session = session;
    utime = utime;
    stime = stime;
    nice = nice;
    starttime = starttime;
    vsize = vsize;
    rss = rss;
    rsslim = rsslim;
  })

-- TryParseStatFile, from the text of the file.
unfoldable pub parse_stat : (text : List ℕ) → Result ParsedStat
parse_stat text = parse_parts (split text space)

-- TryReadStatFile of a process and of a thread.
module _ (read_all_text : List ℕ → List ℕ) where
  unfoldable pub read_stat_file : (pid : ℤ) → Result ParsedStat
  read_stat_file pid = parse_stat (read_all_text (get_stat_file_path_for_process pid))

  unfoldable pub read_thread_stat_file : (pid tid : ℤ) → Result ParsedStat
  read_thread_stat_file pid tid = parse_stat (read_all_text (get_stat_file_path_for_thread pid tid))
