-- ===== src/Services/Notifications.antt =====
-- `NotificationService` of backend/app/services/notification.py.
use ai_secure_collaboration.Prelude.{
  ℕ, Option, none, some, [], ◌∷◌, ◌++◌, Str, codes, is_empty, if◌then◌else◌,
}
use ai_secure_collaboration.External.Redis.{Redis}
use ai_secure_collaboration.External.Json.{Json}
use ai_secure_collaboration.Worker.Queue.{enqueue}

-- `name or email`
unfoldable pub or_text : Option Str → Str → Str
or_text none d = d
or_text (some s) d = if is_empty s then d else s

newline : Str
newline = 10 ∷ []

welcome_body : Str → Str
welcome_body display_name =
    codes "Hello "
    ++ (display_name
        ++ (codes ","
            ++ (newline
                ++ (newline
                    ++ (codes
                          "Thank you for registering! Your secure identity profile has been successfully created under MEMBER access. You can now join collaborative workspaces, create markdown notes with tags, and chat in realtime rooms."
                        ++ (newline
                            ++ (newline
                                ++ (codes "Best regards,"
                                    ++ (newline
                                        ++ codes "Antigravity Platform Engineering Team")))))))))

invite_body : Str → Str → Str
invite_body workspace_name inviter_name =
    codes "Hello,"
    ++ (newline
        ++ (newline
            ++ (codes "User '"
                ++ (inviter_name
                    ++ (codes "' has successfully added you to their collaborative workspace '"
                        ++ (workspace_name
                            ++ (codes
                                  "'. Log in to your profile now to access shared markdown notes and join active room channels!"
                                ++ (newline
                                    ++ (newline
                                        ++ (codes "Best regards,"
                                            ++ (newline
                                                ++ codes
                                                    "Antigravity Platform Engineering Team")))))))))))

module _ (redis : Redis) (json : Json) (now : ℕ) (task_id : Str) where
  -- Both queue a mail at once, with three retries.
  pub queue_mail : Str → Str → Str → redis.State → Str × redis.State
  queue_mail email subject body s =
      enqueue redis json now task_id (codes "send_email_notification")
        (some (email ∷ subject ∷ body ∷ [])) none none 3 s

  pub queue_welcome_email : Str → Option Str → redis.State → Str × redis.State
  unfolding welcome_body or_text
  queue_welcome_email email name s =
      queue_mail email (codes "Welcome to the AI-Powered Secure Collaboration Platform!")
        (welcome_body (or_text name email)) s

  pub queue_workspace_invite : Str → Str → Str → redis.State → Str × redis.State
  unfolding invite_body
  queue_workspace_invite email workspace_name inviter_name s =
      queue_mail email
        (codes "You've been added to the workspace '" ++ (workspace_name ++ codes "'"))
        (invite_body workspace_name inviter_name) s
