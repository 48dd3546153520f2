-- ===== src/Tests/Tokens.antt =====
-- Leases, and the addresses of calendars.
use jira_bot.Base.{
  ◌≤◌, refl, true, false, List, [], ◌∷◌, Option, some, Text, pos, int_eq, text_eq, list_beq, codes,
}
use jira_bot.Calendar.Url.{
  Ip, Url, is_reserved, any_reserved, fetch_scheme, check_ips, check_host, check_url, normalize,
  IsNotReserved, normalize-IsNotReserved,
}
use jira_bot.Storage.{User}
use jira_bot.Identity.Lease.{
  LeaseRequest, LeaseResponse, found, Refreshed, refreshed, Surroundings, min_ttl, save_tokens,
  lease_locked, lease_read, lease,
}
use jira_bot.Identity.Lease.Freshness.{Source, time_asked, lease-Source}

-- A token that expires at 100 seconds.
abbrev user : User
user = record {
  telegram_user_id = pos 7;
  access_token = codes "old";
  refresh_token = codes "r1";
  token_expires_at = 100000;
  jira_cloud_id = codes "c";
  jira_site_url = codes "https://x";
  jira_account_id = codes "u1";
  jira_display_name = codes "Me";
  language = codes "en";
  calendar_url = [];
  calendar_reminder_minutes = 0;
  calendar_last_fetched_at = 0;
  daily_done_jql = [];
  daily_doing_jql = [];
  daily_plan_jql = [];
  default_project = [];
  default_board_id = pos 0;
  default_issue_type_id = [];
  default_issue_type_name = [];
  sprint_issue_types = [];
  assignee_field_id = [];
  story_points_field_id = [];
  done_statuses = [];
  hold_statuses = [];
}

abbrev oauth : Text → Refreshed
oauth token = refreshed (codes "new") (codes "r2") 4000000

abbrev first_caller : Surroundings
first_caller = record {
  first_read = found user;
  first_now = 90000000000;
  second_read = found user;
  second_now = 90000000000;
  oauth = oauth;
  update_ok = true;
}

abbrev request : LeaseRequest
request = record { telegram_id = pos 7; min_ttl_seconds = pos 0 }

abbrev new_lease : LeaseResponse
new_lease = record {
  access_token = codes "new";
  expires_at = 4000;
  cloud_id = codes "c";
  site_url = codes "https://x";
  jira_account_id = codes "u1";
}

lease-Source_example :
    (60000000000 ≤ min_ttl (pos 0))
    × (time_asked (pos 0) ≤ min_ttl (pos 0))
    × Source first_caller (min_ttl (pos 0)) new_lease (lease first_caller request)
unfolding lease lease_read lease_locked save_tokens
lease-Source_example = lease-Source first_caller request new_lease refl

-- One second later.
abbrev second_caller : Surroundings
second_caller = record first_caller { second_now = 91000000000 }

abbrev public_ip : Ip
public_ip = record {
  is_loopback = false;
  is_private = false;
  is_link_local_unicast = false;
  is_link_local_multicast = false;
  is_unspecified = false;
}

abbrev feed : Url
feed = record {
  scheme = codes "webcal";
  host = codes "x.org:1";
  hostname = codes "x.org";
  rest = codes "/a.ics";
}

abbrev resolve : Text → Option (List Ip)
resolve host = some (public_ip ∷ [])

abbrev same_text : Text → Text
same_text s = s

abbrev parse : Text → Option Url
parse raw = some feed

normalize-IsNotReserved_example : IsNotReserved resolve (record feed { scheme = codes "https" })
unfolding normalize check_url check_host check_ips fetch_scheme any_reserved is_reserved list_beq
normalize-IsNotReserved_example =
    normalize-IsNotReserved resolve same_text same_text parse (codes " webcal://x.org:1/a.ics")
      (record feed { scheme = codes "https" }) refl
